-- ===== src/Actions/Redaction/Clean.antt =====
-- What redact_secrets leaves of a value.
use hosting_service.Base.{
  ◌≡◌, refl, ap, subst, ◌↔◌, Bool, true, false, Option, none, some, [], Text, starts_with,
  contains_text, if◌then◌else◌, Unicode,
}
use hosting_service.Actions.Values.{
  Value, null, boolean, integer, real, string, array, object, Items, nil, cons, Fields, end, field,
}
use hosting_service.Actions.Redaction.{
  sensitive_key, sensitive_string, kept_item, kept_field, without_secrets, without_items,
  without_fields, or_nothing, redact_secrets,
}

-- No field with a sensitive key and no sign-in URL, at any depth.
unfoldable mutual
  pub IsClean : Unicode → Value → Type 0
  IsClean u null = Unit
  IsClean u (boolean b) = Unit
  IsClean u (integer n) = Unit
  IsClean u (real r) = Unit
  IsClean u (string s) = sensitive_string s ≡ false
  IsClean u (array xs) = HasCleanItems u xs
  IsClean u (object fs) = HasCleanFields u fs

  pub HasCleanItems : Unicode → Items → Type 0
  HasCleanItems u nil = Unit
  HasCleanItems u (cons v xs) = IsClean u v × HasCleanItems u xs

  pub HasCleanFields : Unicode → Fields → Type 0
  HasCleanFields u end = Unit
  HasCleanFields u (field k v fs) = (sensitive_key u k ≡ false) × IsClean u v × HasCleanFields u fs

IsCleanOption : Unicode → Option Value → Type 0
unfolding IsClean
IsCleanOption u none = Unit
IsCleanOption u (some v) = IsClean u v

kept_item-clean :
    (u : Unicode) (o : Option Value) (xs : Items)
    → IsCleanOption u o
    → HasCleanItems u xs
    → HasCleanItems u (kept_item o xs)
unfolding IsClean IsCleanOption
kept_item-clean u none xs c h = h
kept_item-clean u (some v) xs c h = (c, h)

kept_field-clean :
    (u : Unicode) (hidden : Bool) (k : Text) (o : Option Value) (fs : Fields)
    → sensitive_key u k ≡ hidden
    → IsCleanOption u o
    → HasCleanFields u fs
    → HasCleanFields u (kept_field hidden k o fs)
unfolding IsClean IsCleanOption
kept_field-clean u true k o fs e c h = h
kept_field-clean u false k none fs e c h = h
kept_field-clean u false k (some v) fs e c h = (e, c, h)

kept_string :
    (u : Unicode) (s : Text) (hidden : Bool)
    → sensitive_string s ≡ hidden
    → IsCleanOption u (if hidden then none else some (string s))
unfolding IsClean IsCleanOption
kept_string u s true e = tt
kept_string u s false e = e

mutual
  unfolding without_secrets IsClean IsCleanOption

  without_secrets-IsClean : (u : Unicode) (v : Value) → IsCleanOption u (without_secrets u v)
  without_secrets-IsClean u null = tt
  without_secrets-IsClean u (boolean b) = tt
  without_secrets-IsClean u (integer n) = tt
  without_secrets-IsClean u (real r) = tt
  without_secrets-IsClean u (string s) = kept_string u s (sensitive_string s) refl
  without_secrets-IsClean u (array xs) = without_items-HasCleanItems u xs
  without_secrets-IsClean u (object fs) = without_fields-HasCleanFields u fs

  without_items-HasCleanItems : (u : Unicode) (xs : Items) → HasCleanItems u (without_items u xs)
  without_items-HasCleanItems u nil = tt
  without_items-HasCleanItems u (cons v xs) =
      kept_item-clean u (without_secrets u v) (without_items u xs) (without_secrets-IsClean u v)
        (without_items-HasCleanItems u xs)

  pub without_fields-HasCleanFields :
      (u : Unicode) (fs : Fields) → HasCleanFields u (without_fields u fs)
  without_fields-HasCleanFields u end = tt
  without_fields-HasCleanFields u (field k v fs) =
      kept_field-clean u (sensitive_key u k) k (without_secrets u v) (without_fields u fs) refl
        (without_secrets-IsClean u v) (without_fields-HasCleanFields u fs)

mutual
  unfolding without_secrets IsClean

  clean-stays : (u : Unicode) (v : Value) → IsClean u v → without_secrets u v ≡ some v
  clean-stays u null c = refl
  clean-stays u (boolean b) c = refl
  clean-stays u (integer n) c = refl
  clean-stays u (real r) c = refl
  clean-stays u (string s) c = rw c refl
  clean-stays u (array xs) c = ap (λ ys. some (array ys)) (clean_items-stay u xs c)
  clean-stays u (object fs) c = ap (λ gs. some (object gs)) (clean_fields-stay u fs c)

  clean_items-stay : (u : Unicode) (xs : Items) → HasCleanItems u xs → without_items u xs ≡ xs
  clean_items-stay u nil c = refl
  clean_items-stay u (cons v xs) (c, h) = rw (clean-stays u v c, clean_items-stay u xs h) refl

  clean_fields-stay : (u : Unicode) (fs : Fields) → HasCleanFields u fs → without_fields u fs ≡ fs
  clean_fields-stay u end c = refl
  clean_fields-stay u (field k v fs) (e, c, h) =
      rw (e, clean-stays u v c, clean_fields-stay u fs h) refl

empty_clean : sensitive_string [] ≡ false
unfolding sensitive_string contains_text starts_with
empty_clean = refl

or_nothing-IsClean :
    (u : Unicode) (v : Value) (o : Option Value) → IsCleanOption u o → IsClean u (or_nothing v o)
unfolding IsClean IsCleanOption
or_nothing-IsClean u v (some w) c = c
or_nothing-IsClean u (object fs) none c = tt
or_nothing-IsClean u (array xs) none c = tt
or_nothing-IsClean u null none c = empty_clean
or_nothing-IsClean u (boolean b) none c = empty_clean
or_nothing-IsClean u (integer n) none c = empty_clean
or_nothing-IsClean u (real r) none c = empty_clean
or_nothing-IsClean u (string s) none c = empty_clean

-- Whatever the value, what redact_secrets leaves of it has no field with a sensitive key and no
-- sign-in URL, at any depth.
pub redact_secrets-IsClean : (u : Unicode) (v : Value) → IsClean u (redact_secrets u v)
unfolding redact_secrets
redact_secrets-IsClean u v =
    or_nothing-IsClean u v (without_secrets u v) (without_secrets-IsClean u v)

-- redact_secrets changes a value exactly if something in it is secret; so a second pass changes
-- nothing.
pub redact_secrets_fixed_iff : (u : Unicode) (v : Value) → (redact_secrets u v ≡ v) ↔ IsClean u v
unfolding redact_secrets
redact_secrets_fixed_iff u v =
    (λ e. subst (IsClean u) e (redact_secrets-IsClean u v), λ c. rw (clean-stays u v c) refl)
