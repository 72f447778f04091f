-- ===== src/RouteContract/Names.antt =====
-- The constants of the contract, the identifiers that it accepts and the tags that it derives.
use Prim.Native.String as Native
use rill_xray_agent.Prelude.{
  ℕ, String, Bool, false, ◌&&◌, ◌||◌, ◌==◌, leb, List, [], ◌∷◌, length, all, if◌then◌else◌,
}
use rill_xray_agent.Prelude.Dict.{Dict}
use rill_xray_agent.Prelude.Text.{codes}
use rill_xray_agent.Json.{Json, str}

abbrev pub allowed_ops : List String
allowed_ops =
    "routingRule.insert" ∷ "routingRule.removeManaged" ∷ "routingRule.replaceManaged"
    ∷ "routingRule.moveManaged" ∷ []

-- `OP_PARAM_KEYS`
abbrev pub op_param_keys : Dict (List String)
op_param_keys =
    (
      "routingRule.insert",
      "managedRuleId" ∷ "position" ∷ "selectorType" ∷ "selectorValue" ∷ "outboundTag" ∷ [],
    )
    ∷ ("routingRule.removeManaged", "ruleIndex" ∷ [])
    ∷ (
      "routingRule.replaceManaged",
      "managedRuleId" ∷ "ruleIndex" ∷ "selectorType" ∷ "selectorValue" ∷ "outboundTag" ∷ [],
    )
    ∷ ("routingRule.moveManaged", "fromIndex" ∷ "toIndex" ∷ [])
    ∷ []

abbrev pub index_keys : List String
index_keys = "position" ∷ "ruleIndex" ∷ "fromIndex" ∷ "toIndex" ∷ []

abbrev pub max_operations : ℕ
max_operations = 32

abbrev pub max_params : ℕ
max_params = 8

abbrev pub max_rules : ℕ
max_rules = 512

abbrev pub managed_prefix : String
managed_prefix = "rill-managed-"

abbrev is_alphanumeric : ℕ → Bool
is_alphanumeric c = leb b'a' c && leb c b'z' || leb b'A' c && leb c b'Z' || leb b'0' c && leb c b'9'

-- `[A-Za-z0-9_-]`
abbrev is_id_char : ℕ → Bool
is_id_char c = is_alphanumeric c || c == b'_' || c == b'-'

-- `SAFE_CHARS`
abbrev pub is_safe_char : ℕ → Bool
is_safe_char c =
    is_alphanumeric c
    || c == b'.'
    || c == b'-'
    || c == b'_'
    || c == b':'
    || c == b','
    || c == b'/'
    || c == b'@'
    || c == b'+'

-- What `$` leaves of a text: it also matches before a final newline.
abbrev before_newline : List ℕ → List ℕ
before_newline [] = []
before_newline (c ∷ []) = if c == 10 then [] else c ∷ []
before_newline (c ∷ d ∷ cs) = c ∷ before_newline (d ∷ cs)

-- `ID_RE.match`
unfoldable pub id_re : List ℕ → Bool
id_re cs =
    let body = before_newline cs in
    all is_id_char body && leb 1 (length body) && leb (length body) 128

-- `SHA_RE.match`
unfoldable pub sha_re : List ℕ → Bool
sha_re cs =
    let body = before_newline cs in
    all (λ c. leb b'a' c && leb c b'f' || leb b'0' c && leb c b'9') body && length body == 64

unfoldable pub managed_rule_id_valid : Json → Bool
managed_rule_id_valid (str s) = id_re (codes s)
managed_rule_id_valid _ = false

-- `sha` is the hexadecimal SHA-256 of a text. The caller has checked the identifier.
unfoldable pub managed_tag : (String → String) → String → String
managed_tag sha id = Native.◌++◌ managed_prefix (Native.slice (sha id) 0 12)
