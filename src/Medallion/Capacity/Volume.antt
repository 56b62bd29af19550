-- ===== src/Medallion/Capacity/Volume.antt =====
-- What the check of the volume shows (src/infrastructure/medallion/capacity_guards.py).
use self_evaluating_trading.Common.{
  ◌≡◌, refl, strip, ◌⊎◌, Bool, true, false, Option, none, some, [], String, eq_iff, arith,
}
use self_evaluating_trading.Medallion.Capacity.{
  Json, marker_of, marker_identity, VolumeIdentity, Surroundings, CapacityGuardConfig, GuardError,
  Verdict, passed, failed, Marker, check_marker, read_marker, require_data_volume,
}

-- The volume is the one that the configuration names, by its marker and by its identity.
pub record IsIdentified (config : CapacityGuardConfig) (w : Surroundings) : Type 0 where
  pub mounted : w.is_mount ≡ true
  pub labelled : w.volume_identity.label ≡ config.expected_label
  pub numbered : w.volume_identity.uuid ≡ config.expected_uuid
  pub marked :
      (v : VolumeIdentity) × (read_marker w.loads w.marker_text ≡ Marker.identified v)
      × (v.label ≡ config.expected_label)
      × ((v.uuid ≡ "") ⊎ (v.uuid ≡ config.expected_uuid))

check_marker-none :
    (config : CapacityGuardConfig) (w : Surroundings) (m : Marker)
    → read_marker w.loads w.marker_text ≡ m
    → w.is_mount ≡ true
    → check_marker config w.volume_identity m ≡ none
    → IsIdentified config w
unfolding check_marker
check_marker-none config w (Marker.refused g) q i e = absurd (ground arith)
check_marker-none config w (Marker.identified v) q i e = record {
  mounted = i;
  labelled = ground (arith, eq_iff w.volume_identity.label config.expected_label);
  numbered = ground (arith, eq_iff w.volume_identity.uuid config.expected_uuid);
  marked = (
    v,
    q,
    ground (arith, eq_iff v.label config.expected_label),
    ground (arith, eq_iff v.uuid config.expected_uuid, eq_iff v.uuid ""),
  );
}

pub require_data_volume-IsIdentified :
    (config : CapacityGuardConfig) (w : Surroundings)
    → require_data_volume config w ≡ none
    → IsIdentified config w
unfolding require_data_volume
require_data_volume-IsIdentified config w e =
    check_marker-none config w _ refl (ground arith) (ground arith)

-- The guards of the check that come before its last step.
abbrev pub is_early : Verdict → Bool
is_early (passed r) = false
is_early (failed GuardError.cache_max_after_purge ps) = false
is_early (failed _ ps) = true

-- The volume is never refused with the last message of the preflight.
marker_of-is_early :
    (text : String) (j : Json) (g : GuardError)
    → marker_of text j ≡ Marker.refused g
    → is_early (failed g []) ≡ true
unfolding marker_of
marker_of-is_early text Json.no_json g e = ground arith
marker_of-is_early text Json.no_object g e = ground arith
marker_of-is_early text (Json.object l u) g e = ground arith

read_marker-is_early :
    (loads : String → Json) (o : Option String) (g : GuardError)
    → read_marker loads o ≡ Marker.refused g
    → is_early (failed g []) ≡ true
unfolding marker_identity
read_marker-is_early loads none g e = ground arith
read_marker-is_early loads (some text) g e =
    ground (arith, marker_of-is_early (strip text) (loads (strip text)) g)

check_marker-is_early :
    (config : CapacityGuardConfig) (identity : VolumeIdentity) (loads : String → Json)
    (o : Option String) (m : Marker) (g : GuardError)
    → read_marker loads o ≡ m
    → check_marker config identity m ≡ some g
    → is_early (failed g []) ≡ true
unfolding check_marker
check_marker-is_early config identity loads o (Marker.refused h) g q e =
    ground (arith, read_marker-is_early loads o h)
check_marker-is_early config identity loads o (Marker.identified v) g q e = ground arith

pub require_data_volume-is_early :
    (config : CapacityGuardConfig) (w : Surroundings) (g : GuardError)
    → require_data_volume config w ≡ some g
    → is_early (failed g []) ≡ true
unfolding require_data_volume
require_data_volume-is_early config w g e = ground (
  arith,
  check_marker-is_early config w.volume_identity w.loads w.marker_text
      (read_marker w.loads w.marker_text) g refl,
)
