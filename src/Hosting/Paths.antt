-- ===== src/Hosting/Paths.antt =====
-- apps/hosting/paths.py: relative paths of artifact members and of requests.
pub mod Requests
pub mod Normal
pub mod Levels
mod Percent
unfoldable pub use Percent.{is_percent, unquote}
use mathlib.Core.List.{reverse}
use hosting_service.Base.{
  ℕ, ◌+◌, ◌/◌, ◌%◌, Bool, true, false, not, ◌&&◌, ◌||◌, Option, none, some, List, [], ◌∷◌, ◌++◌,
  map, Text, codes, text_eq, starts_with, contains_text, strip_slashes, replace_char, split, join,
  drop, any, is_empty, if◌then◌else◌, ◌==◌, is_lower, is_upper, lower_char, Result, ok, err,
}

abbrev pub dot : Text
dot = codes "."

abbrev pub dotdot : Text
dotdot = codes ".."

-- [a-z] under (?i): the letters, and the four others that fold to one.
abbrev pub is_drive_letter : ℕ → Bool
is_drive_letter c =
    is_lower c || is_upper c || c == 0x130 || c == 0x131 || c == 0x17f || c == 0x212a

-- _WINDOWS_ABSOLUTE.match
unfoldable pub windows_absolute : Text → Bool
windows_absolute (c ∷ d ∷ e ∷ s) = is_drive_letter c && d == b':' && (e == b'/' || e == b'\\')
windows_absolute _ = false

-- posixpath.normpath. The stack of components has its last one at the head.
top_is_dotdot : List Text → Bool
top_is_dotdot [] = false
top_is_dotdot (w ∷ ws) = text_eq w dotdot

pop : List Text → List Text
pop [] = []
pop (w ∷ ws) = ws

unfoldable pub push_component : Bool → List Text → Text → List Text
unfolding top_is_dotdot pop
push_component rooted stack comp =
    if text_eq comp [] || text_eq comp dot
    then stack
    else if not (text_eq comp dotdot) || (not rooted && is_empty stack) || top_is_dotdot stack
    then comp ∷ stack
    else pop stack

unfoldable pub components : Bool → List Text → List Text → List Text
unfolding push_component
components rooted stack [] = stack
components rooted stack (comp ∷ comps) = components rooted (push_component rooted stack comp) comps

unfoldable pub initial_slashes : Text → Text
unfolding starts_with
initial_slashes path =
    if starts_with path (codes "//") && not (starts_with path (codes "///"))
    then codes "//"
    else if starts_with path (codes "/")
    then codes "/"
    else []

abbrev pub or_dot : Text → Text
or_dot [] = dot
or_dot (c ∷ s) = c ∷ s

unfoldable pub normpath : Text → Text
unfolding components initial_slashes
normpath path =
    let slashes = initial_slashes path in
    let comps = components (not (is_empty slashes)) [] (split b'/' path) in
    or_dot (slashes ++ join b'/' (reverse comps))

abbrev pub is_unsafe_part : Text → Bool
is_unsafe_part part = text_eq part [] || text_eq part dotdot

-- `path.replace('\\', '/').strip('/')`
unfoldable pub slashed : Text → Text
slashed path = strip_slashes (replace_char b'\\' b'/' path)

unfoldable pub normalize_relative_path : Option Text → Option Text
unfolding slashed
normalize_relative_path none = none
normalize_relative_path (some path) =
    if windows_absolute path
    then none
    else let slash = slashed path in
      if is_empty slash
      then none
      else if any is_unsafe_part (split b'/' slash)
      then none
      else let normalized = normpath slash in
        if is_empty normalized || text_eq normalized dot
        then none
        else if starts_with normalized (codes "../") || text_eq normalized dotdot
        then none
        else if any (text_eq dotdot) (split b'/' normalized)
        then none
        else some normalized

-- The class [/%5c] of _ENCODED_DOTDOT, under (?i).
abbrev pub is_boundary : ℕ → Bool
is_boundary c = c == b'/' || c == b'%' || c == b'5' || c == b'c' || c == b'C'

-- (?:$|[/%5c])
abbrev pub ends_segment : Text → Bool
ends_segment [] = true
ends_segment (c ∷ []) = c == b'\n' || is_boundary c
ends_segment (c ∷ d ∷ s) = is_boundary c

-- (?:%2e%2e|\.\.)(?:$|[/%5c]), at the start of a text.
unfoldable pub dots_here : Text → Bool
unfolding starts_with
dots_here s =
    (starts_with (map lower_char s) (codes "%2e%2e") && ends_segment (drop 6 s))
    || (starts_with s dotdot && ends_segment (drop 2 s))

unfoldable pub dots_after_boundary : Text → Bool
dots_after_boundary [] = false
dots_after_boundary (c ∷ s) = (is_boundary c && dots_here s) || dots_after_boundary s

-- _ENCODED_DOTDOT.search
unfoldable pub encoded_dotdot : Text → Bool
encoded_dotdot s = dots_here s || dots_after_boundary s

abbrev pub is_dotdot_segment : Text → Bool
is_dotdot_segment segment = not (is_empty segment) && text_eq (unquote segment) dotdot

unfoldable pub raw_path_has_traversal : Text → Bool
raw_path_has_traversal raw =
    contains_text dotdot raw
    || encoded_dotdot raw
    || any is_dotdot_segment (split b'/' (replace_char b'\\' b'/' raw))

pub data PathError : Type 0 where
  invalid_path : PathError

abbrev pub found_path : Option Text → Result PathError Text
found_path none = err invalid_path
found_path (some rel) = ok rel

unfoldable pub validate_serve_path : Text → Result PathError Text
validate_serve_path raw =
    if is_empty (strip_slashes raw)
    then ok []
    else if raw_path_has_traversal raw
    then err invalid_path
    else found_path (normalize_relative_path (some (unquote raw)))
