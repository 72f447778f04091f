-- ===== src/RouteExecutor/Tags.antt =====
-- The tag of a rule that the compiler makes or edits.
use text.Mathlib.TextPositions.{starts_with-append}
use rill_xray_agent.Prelude.{
  String, ◌≡◌, refl, ap, sym, ◌∙◌, true, false, arith, eq_iff, str_eq, if◌then◌else◌,
}
use rill_xray_agent.Prelude.Result.{ok, bind-ok, ok-injective}
use rill_xray_agent.Json.{Json, null, str, obj, Fields, end, field}
use rill_xray_agent.Json.Laws.{value-put_field, value-remove_field}
use rill_xray_agent.Json.Edit.{value, put_field}
use rill_xray_agent.RouteContract.Names.{managed_prefix, managed_tag}
use rill_xray_agent.RouteExecutor.Compile.{
  is_managed, is_managed_tag, has_prefix, selector_fields, is_selector, selector_of, remove_all,
  set_outbound, new_tag, new_rule, replaced_rule,
}

tag-not_selector : is_selector "tag" ≡ false
unfolding is_selector
tag-not_selector = refl

-- No selector is called `tag`.
selector-not_tag : (s : String) → is_selector s ≡ true → str_eq s "tag" ≡ false
selector-not_tag s h = ground (arith, eq_iff s "tag", tag-not_selector)

pub selector_of-field : (v : Json) (s : String) → selector_of v ≡ ok s → is_selector s ≡ true
unfolding selector_of
selector_of-field v s h = ground arith

value-set_outbound : (v : Json) (fs : Fields) → value "tag" (set_outbound v fs) ≡ value "tag" fs
unfolding set_outbound
value-set_outbound v fs = ground (arith, value-put_field "outboundTag" "tag" v fs)

value-put_selector :
    (s : String) (v : Json) (fs : Fields)
    → is_selector s ≡ true
    → value "tag" (put_field s v fs) ≡ value "tag" fs
value-put_selector s v fs h =
    value-put_field s "tag" v fs ∙ ap (λ b. if b then v else value "tag" fs) (selector-not_tag s h)

value-remove_all : (fs : Fields) → value "tag" (remove_all selector_fields fs) ≡ value "tag" fs
value-remove_all fs =
    value-remove_field "source" "tag" _
    ∙ value-remove_field "protocol" "tag" _
    ∙ value-remove_field "network" "tag" _
    ∙ value-remove_field "port" "tag" _
    ∙ value-remove_field "ip" "tag" _
    ∙ value-remove_field "domain" "tag" fs

-- A rule is managed by its tag alone.
pub managed_by_tag :
    (fs gs : Fields) → value "tag" fs ≡ value "tag" gs → is_managed (obj fs) ≡ is_managed (obj gs)
unfolding is_managed
managed_by_tag fs gs h = ap is_managed_tag h

pub replaced_rule-tag :
    (sha : String → String) (rule : Fields) (s : String) (params : Fields)
    → is_selector s ≡ true
    → value "tag" (replaced_rule sha rule s params) ≡ value "tag" rule
unfolding replaced_rule
replaced_rule-tag sha rule s params h =
    value-set_outbound _ _ ∙ value-put_selector s _ _ h ∙ value-remove_all rule

pub replaced_rule-IsManaged :
    (sha : String → String) (rule : Fields) (s : String) (params : Fields)
    → is_selector s ≡ true
    → is_managed (obj rule) ≡ true
    → is_managed (obj (replaced_rule sha rule s params)) ≡ true
replaced_rule-IsManaged sha rule s params h g =
    managed_by_tag (replaced_rule sha rule s params) rule (replaced_rule-tag sha rule s params h)
    ∙ g

managed_tag-prefix : (sha : String → String) (id : String) → has_prefix (managed_tag sha id) ≡ true
unfolding managed_tag has_prefix
managed_tag-prefix sha id = starts_with-append managed_prefix _

new_tag-prefix :
    (sha : String → String) (v : Json) (tag : String)
    → new_tag sha v ≡ ok tag
    → has_prefix tag ≡ true
unfolding new_tag
new_tag-prefix sha (str id) tag h = ground (arith, managed_tag-prefix sha id)
new_tag-prefix sha null tag h = ground arith
new_tag-prefix sha _ tag h = ground arith

abbrev untyped : String → Fields
untyped tag = field "tag" (str tag) (field "type" (str "field") end)

made_rule-tag :
    (s tag : String) (v o : Json)
    → is_selector s ≡ true
    → has_prefix tag ≡ true
    → is_managed (obj (set_outbound o (put_field s v (untyped tag)))) ≡ true
unfolding is_managed value
made_rule-tag s tag v o h g =
    managed_by_tag (set_outbound o (put_field s v (untyped tag))) (untyped tag)
      (value-set_outbound o (put_field s v (untyped tag)) ∙ value-put_selector s v (untyped tag) h)
    ∙ g

-- Every rule that the compiler inserts is managed.
pub new_rule-IsManaged :
    (sha : String → String) (params : Fields) (rule : Json)
    → new_rule sha params ≡ ok rule
    → is_managed rule ≡ true
unfolding new_rule
new_rule-IsManaged sha params rule h =
    let tagged = bind-ok (new_tag sha (value "managedRuleId" params)) _ rule h in
    let chosen = bind-ok (selector_of (value "selectorType" params)) _ rule tagged.2 in
    ap is_managed (sym (ok-injective chosen.2))
    ∙ made_rule-tag chosen.0 tagged.0 _ _ (selector_of-field _ chosen.0 chosen.1)
        (new_tag-prefix sha _ tagged.0 tagged.1)
