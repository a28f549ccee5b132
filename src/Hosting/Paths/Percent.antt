-- ===== src/Hosting/Paths/Percent.antt =====
-- urllib.parse.unquote, which paths.py calls: percent-decoding of each run of ASCII characters, and
-- UTF-8 with U+FFFD for each maximal part that is no code point.
use hosting_service.Base.{
  ℕ, ◌+◌, ◌*◌, ◌-◌, ◌≡◌, refl, Bool, ◌&&◌, Option, none, some, List, [], ◌∷◌, ◌++◌, Text, codes,
  any, if◌then◌else◌, ◌==◌, leb, ltb, is_digit,
}

-- A byte of an ASCII run, or a character between the runs.
pub data Piece : Type 0 where
  byte : ℕ → Piece
  char : ℕ → Piece

unfoldable pub hex_value : ℕ → Option ℕ
hex_value c =
    if is_digit c
    then some (c - b'0')
    else if leb b'a' c && leb c b'f'
    then some (c - b'a' + 10)
    else if leb b'A' c && leb c b'F'
    then some (c - b'A' + 10)
    else none

hex_pair : Option ℕ → Option ℕ → Option ℕ
hex_pair (some a) (some b) = some (16 * a + b)
hex_pair _ _ = none

abbrev plain_piece : ℕ → Piece
plain_piece c = if ltb c 128 then byte c else char c

-- `urllib.parse.unquote_to_bytes` on each run.
pieces : Text → List Piece
unfolding hex_value hex_pair
pieces [] = []
pieces (c ∷ []) = plain_piece c ∷ []
pieces (c ∷ d ∷ []) = plain_piece c ∷ plain_piece d ∷ []
pieces (c ∷ d ∷ e ∷ s) =
    let literal = plain_piece c ∷ pieces (d ∷ e ∷ s) in
    let rest = pieces s in
    if c == b'%'
    then elim (hex_pair (hex_value d) (hex_value e)) [ none ↦ literal | some b ↦ byte b ∷ rest ]
    else literal

-- A sequence under way: the bytes that are missing, the range of the next, and the bits so far.
pub record Decoder : Type 0 where
  pub left : ℕ
  pub lo : ℕ
  pub hi : ℕ
  pub bits : ℕ

abbrev idle : Decoder
idle = record { left = 0; lo = 0; hi = 0; bits = 0 }

abbrev replacement : ℕ
replacement = 0xfffd

lead : ℕ → Text × Decoder
lead b =
    if ltb b 0x80
    then (b ∷ [], idle)
    else if ltb b 0xc2
    then (replacement ∷ [], idle)
    else if ltb b 0xe0
    then ([], record { left = 1; lo = 0x80; hi = 0xbf; bits = b - 0xc0 })
    else if ltb b 0xf0
    then (
      [],
      record {
        left = 2;
        lo = if b == 0xe0 then 0xa0 else 0x80;
        hi = if b == 0xed then 0x9f else 0xbf;
        bits = b - 0xe0;
      },
    )
    else if ltb b 0xf5
    then (
      [],
      record {
        left = 3;
        lo = if b == 0xf0 then 0x90 else 0x80;
        hi = if b == 0xf4 then 0x8f else 0xbf;
        bits = b - 0xf0;
      },
    )
    else (replacement ∷ [], idle)

-- What the next byte of the sequence leaves, with the bits that it makes.
continued : Decoder → ℕ → Text × Decoder
continued d bits =
    if d.left == 1
    then (bits ∷ [], idle)
    else ([], record { left = d.left - 1; lo = 0x80; hi = 0xbf; bits = bits })

feed : Decoder → ℕ → Text × Decoder
unfolding lead continued
feed d b =
    if d.left == 0
    then lead b
    else if leb d.lo b && leb b d.hi
    then continued d (64 * d.bits + (b - 0x80))
    else let (out, d') = lead b in (replacement ∷ out, d')

flush : Decoder → Text
flush d = if d.left == 0 then [] else replacement ∷ []

decode : Decoder → List Piece → Text
unfolding feed flush
decode d [] = flush d
decode d (char c ∷ ps) = flush d ++ c ∷ decode idle ps
decode d (byte b ∷ ps) = let (out, d') = feed d b in out ++ decode d' ps

abbrev pub is_percent : ℕ → Bool
is_percent c = c == b'%'

unfoldable pub unquote : Text → Text
unfolding pieces decode
unquote s = if any is_percent s then decode idle (pieces s) else s

unquote_ascii : unquote (codes "a%2Fb%2e%2E%zz%") ≡ codes "a/b..%zz%"
unfolding unquote
unquote_ascii = refl

unquote_utf8 : unquote (codes "%e2%82%acé%F0%9F%98%80") ≡ codes "€é😀"
unfolding unquote
unquote_utf8 = refl

-- An overlong form, a surrogate and a sequence that is cut.
unquote_broken :
    unquote (codes "%c0%ae|%ed%a0%80|%e2%82|%f0%9f")
    ≡ replacement ∷ replacement ∷ b'|' ∷ replacement ∷ replacement ∷ replacement ∷ b'|'
      ∷ replacement ∷ b'|' ∷ replacement ∷ []
unfolding unquote
unquote_broken = refl
