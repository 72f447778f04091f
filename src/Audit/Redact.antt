-- ===== src/Audit/Redact.antt =====
-- `redact`: what of the details of an event is written down.
use rill_xray_agent.Prelude.{
  ℕ, ◌==◌, String, ◌≡◌, refl, ◌⊎◌, inl, inr, Bool, true, false, ◌&&◌, ◌||◌, List, [], ◌∷◌,
  if◌then◌else◌,
}
use rill_xray_agent.Prelude.Text.{codes}
use rill_xray_agent.Json.{
  Json, null, bool, num, real, str, arr, obj, Items, nil, cons, Fields, end, field,
}

abbrev is_prefix : List ℕ → List ℕ → Bool
is_prefix [] ys = true
is_prefix (x ∷ xs) [] = false
is_prefix (x ∷ xs) (y ∷ ys) = x == y && is_prefix xs ys

-- `word in text`
abbrev pub occurs_in : List ℕ → List ℕ → Bool
occurs_in word [] = is_prefix word []
occurs_in word (c ∷ cs) = is_prefix word (c ∷ cs) || occurs_in word cs

-- `SENSITIVE`
abbrev sensitive_words : List String
sensitive_words =
    "privatekey" ∷ "password" ∷ "token" ∷ "secret" ∷ "uuid" ∷ "shortid" ∷ "credential"
    ∷ "authorization" ∷ "vless://" ∷ []

abbrev any_occurs : List String → List ℕ → Bool
any_occurs [] text = false
any_occurs (w ∷ ws) text = occurs_in (codes w) text || any_occurs ws text

abbrev pub mark : String
mark = "<redacted>"

-- `lower` is `str.lower`, on the characters of a text.
module _ (lower : List ℕ → List ℕ) where
  -- `any(x in text.lower() for x in SENSITIVE)`
  unfoldable pub is_sensitive : String → Bool
  is_sensitive text = any_occurs sensitive_words (lower (codes text))

  abbrev pub marked_if : Bool → Json → Json
  marked_if test v = if test then str mark else v

  unfoldable mutual
    -- `redact` of a value whose key is not sensitive
    pub redact_value : Json → Json
    redact_value (obj fs) = obj (redact_fields fs)
    redact_value (arr xs) = arr (redact_items xs)
    redact_value (str s) = marked_if (is_sensitive s) (str s)
    redact_value v = v

    pub redact_fields : Fields → Fields
    redact_fields end = end
    redact_fields (field k v fs) =
        field k (marked_if (is_sensitive k) (redact_value v)) (redact_fields fs)

    -- The values of a list have the key of the list, which is not sensitive here.
    pub redact_items : Items → Items
    redact_items nil = nil
    redact_items (cons x xs) = cons (redact_value x) (redact_items xs)

  unfoldable pub redact : Json → String → Json
  redact v key = marked_if (is_sensitive key) (redact_value v)

  mutual
    -- no text is sensitive, and what stands under a sensitive key is the mark
    pub IsClean : Json → Type 0
    IsClean (obj fs) = AreClean fs
    IsClean (arr xs) = AllClean xs
    IsClean (str s) = is_sensitive s ≡ false
    IsClean _ = Unit

    pub AreClean : Fields → Type 0
    AreClean end = Unit
    AreClean (field k v fs) = ((is_sensitive k ≡ false) ⊎ (v ≡ str mark)) × IsClean v × AreClean fs

    pub AllClean : Items → Type 0
    AllClean nil = Unit
    AllClean (cons x xs) = IsClean x × AllClean xs

  module _ (unmarked : is_sensitive mark ≡ false) where
    marked_if-IsClean : (test : Bool) (v : Json) → IsClean v → IsClean (marked_if test v)
    unfolding IsClean
    marked_if-IsClean true v h = unmarked
    marked_if-IsClean false v h = h

    marked_text :
        (test : Bool) (s : String) → is_sensitive s ≡ test → IsClean (marked_if test (str s))
    unfolding IsClean
    marked_text true s h = unmarked
    marked_text false s h = h

    marked_key :
        (k : String) (v : Json) (test : Bool)
        → is_sensitive k ≡ test
        → (is_sensitive k ≡ false) ⊎ (marked_if test v ≡ str mark)
    marked_key k v true h = inr refl
    marked_key k v false h = inl h

    mutual
      unfolding IsClean redact_value

      redact_value-IsClean : (v : Json) → IsClean (redact_value v)
      redact_value-IsClean (obj fs) = redact_fields-AreClean fs
      redact_value-IsClean (arr xs) = redact_items-AllClean xs
      redact_value-IsClean (str s) = marked_text (is_sensitive s) s refl
      redact_value-IsClean null = tt
      redact_value-IsClean (bool b) = tt
      redact_value-IsClean (num z) = tt
      redact_value-IsClean (real r) = tt

      redact_fields-AreClean : (fs : Fields) → AreClean (redact_fields fs)
      redact_fields-AreClean end = tt
      redact_fields-AreClean (field k v fs) = (
        marked_key k (redact_value v) (is_sensitive k) refl,
        marked_if-IsClean (is_sensitive k) (redact_value v) (redact_value-IsClean v),
        redact_fields-AreClean fs,
      )

      redact_items-AllClean : (xs : Items) → AllClean (redact_items xs)
      redact_items-AllClean nil = tt
      redact_items-AllClean (cons x xs) = (redact_value-IsClean x, redact_items-AllClean xs)

    -- What is written of the details of an event, however deep, has no text with a sensitive word, and
    -- under a key with one there is the mark alone; the mark itself is taken to have none.
    pub redact-IsClean :
        (v : Json) (key : String)
        → IsClean (redact v key) × ((is_sensitive key ≡ false) ⊎ (redact v key ≡ str mark))
    unfolding redact
    redact-IsClean v key = (
      marked_if-IsClean (is_sensitive key) (redact_value v) (redact_value-IsClean v),
      marked_key key (redact_value v) (is_sensitive key) refl,
    )
