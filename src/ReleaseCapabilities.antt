-- ===== src/ReleaseCapabilities.antt =====
-- python/rill_xray_agent/release_capabilities.py: the release gate of the two route features.
use rill_xray_agent.Prelude.{
  zero, suc, String, ◌≡◌, refl, Bool, true, false, Option, none, some, arith, Bool-cases, inl, inr,
  if◌then◌else◌,
}
use rill_xray_agent.Prelude.Int.{pos}
use rill_xray_agent.Json.{Json, Fields, obj, bool, member, int_of}
use rill_xray_agent.RootPolicy.State.{RouteStage, assist, auto}

-- `RELEASE_CAPABILITY_FEATURES`
pub data Feature : Type 0 where
  route_assist bounded_auto : Feature

abbrev pub feature_text : Feature → String
feature_text route_assist = "routeAssist"
feature_text bounded_auto = "boundedAuto"

pub record Entry : Type 0 where
  pub supported : Bool
  pub released : Bool

-- `_default_entry`
abbrev pub default_entry : Entry
default_entry = record { supported = true; released = false }

-- `_manifest`
pub record Manifest : Type 0 where
  pub on_route_assist : Entry
  pub on_bounded_auto : Entry

-- the value of a key, if it is a boolean
abbrev flag_or : Bool → Option Json → Bool
flag_or default (some (bool b)) = b
flag_or default _ = default

-- one round of the loop over the features
abbrev entry_of : Option Json → Entry
entry_of (some (obj fs)) = record {
  supported = flag_or true (member "supported" fs);
  released = flag_or false (member "released" fs);
}
entry_of _ = default_entry

abbrev locked : Manifest
locked = record { on_route_assist = default_entry; on_bounded_auto = default_entry }

abbrev manifest_of : Option Json → Manifest
manifest_of (some (obj features)) = record {
  on_route_assist = entry_of (member "routeAssist" features);
  on_bounded_auto = entry_of (member "boundedAuto" features);
}
manifest_of _ = locked

-- `data.get('schemaVersion') == 1`
abbrev pub is_version_one : Option Json → Bool
is_version_one none = false
is_version_one (some j) = elim (int_of j) [ some (pos (suc zero)) ↦ true | _ ↦ false ]

-- `_load`; `none` is a file that `read_json` raises on
unfoldable pub load : Option Json → Manifest
load (some (obj fs)) =
    if is_version_one (member "schemaVersion" fs)
    then manifest_of (member "features" fs)
    else locked
load _ = locked

-- `_entry`
unfoldable pub entry : Manifest → Feature → Entry
entry m route_assist = m.on_route_assist
entry m bounded_auto = m.on_bounded_auto

unfoldable pub is_supported : Manifest → Feature → Bool
unfolding entry
is_supported m f = (entry m f).supported

unfoldable pub is_released : Manifest → Feature → Bool
unfolding entry
is_released m f = (entry m f).released

pub data ReleaseCapabilityStatus : Type 0 where
  unsupported supported_locked available_disabled available_enabled : ReleaseCapabilityStatus

-- the stages at which a feature is switched on
abbrev pub enabled_at : Feature → RouteStage → Bool
enabled_at route_assist assist = true
enabled_at route_assist auto = true
enabled_at bounded_auto auto = true
enabled_at _ _ = false

unfoldable pub evaluate : Manifest → Feature → RouteStage → ReleaseCapabilityStatus
unfolding is_supported is_released
evaluate m f stage =
    if is_supported m f
    then (if is_released m f
        then (if enabled_at f stage then available_enabled else available_disabled)
        else supported_locked)
    else unsupported

unfoldable pub with_released : Manifest → Feature → Bool → Manifest
with_released m route_assist value = record m {
  on_route_assist = record m.on_route_assist { released = value };
}
with_released m bounded_auto value = record m {
  on_bounded_auto = record m.on_bounded_auto { released = value };
}

-- the manifest says in so many words that the feature is released
pub record SaysReleased (file : Option Json) (f : Feature) : Type 0 where
  pub top : Fields
  pub file_is : file ≡ some (obj top)
  pub version : is_version_one (member "schemaVersion" top) ≡ true
  pub features : Fields
  pub features_is : member "features" top ≡ some (obj features)
  pub own : Fields
  pub own_is : member (feature_text f) features ≡ some (obj own)
  pub released_is : member "released" own ≡ some (bool true)

flag_or-true : (o : Option Json) → flag_or false o ≡ true → o ≡ some (bool true)
flag_or-true (some (bool true)) h = refl
flag_or-true _ h = ground arith

entry_of-released :
    (o : Option Json)
    → (entry_of o).released ≡ true
    → (own : Fields) × (o ≡ some (obj own)) × (member "released" own ≡ some (bool true))
entry_of-released (some (obj fs)) h = (fs, refl, flag_or-true (member "released" fs) h)
entry_of-released _ h = ground arith

manifest_of-released :
    (o : Option Json) (f : Feature)
    → is_released (manifest_of o) f ≡ true
    → (features own : Fields) × (o ≡ some (obj features))
      × (member (feature_text f) features ≡ some (obj own))
      × (member "released" own ≡ some (bool true))
unfolding is_released
manifest_of-released (some (obj fs)) route_assist h =
    let (own, is, says) = entry_of-released (member "routeAssist" fs) h in (fs, own, refl, is, says)
manifest_of-released (some (obj fs)) bounded_auto h =
    let (own, is, says) = entry_of-released (member "boundedAuto" fs) h in (fs, own, refl, is, says)
manifest_of-released _ route_assist h = ground arith
manifest_of-released _ bounded_auto h = ground arith

locked-released : (f : Feature) → is_released locked f ≡ false
unfolding is_released
locked-released route_assist = refl
locked-released bounded_auto = refl

-- A feature is released only if the file is a JSON object of schema version 1 whose `features` has,
-- under the feature's name, an object in which `released` is the boolean true; whatever else the
-- file holds, or no file, leaves the feature locked.
pub is_released-says :
    (file : Option Json) (f : Feature) → is_released (load file) f ≡ true → SaysReleased file f
unfolding load
is_released-says (some (obj fs)) f h =
    elim (Bool-cases (is_version_one (member "schemaVersion" fs))) [
      | inl one ↦
          let (features, own, has, is, says) =
            manifest_of-released (member "features" fs) f (rw one at h) in
          record {
            top = fs;
            file_is = refl;
            version = one;
            features = features;
            features_is = has;
            own = own;
            own_is = is;
            released_is = says;
          }
      | inr other ↦ cc (rw other at h, locked-released f)
    ]
is_released-says _ f h = cc (locked-released f)
