-- ===== src/Medallion/Capacity.antt =====
-- src/infrastructure/medallion/capacity_guards.py: what has to hold before a refresh writes. The probe, the
-- file system and Python's `json` are parameters; a size, a time and a number of days is a natural
-- number, and a path a text.
pub mod Purge
pub mod Volume
pub mod Preflight
pub mod Retention
use Prim.Native.Nat.{Ordering}
use Prim.Native.String.{compare}
use self_evaluating_trading.Common.{
  ℕ, ◌+◌, ◌-◌, ◌*◌, ◌/◌, ◌^◌, Bool, true, false, not, ◌&&◌, ◌||◌, ltb, leb, Option, none, some,
  List, [], ◌∷◌, ◌++◌, String, str_eq, strip, first_line, if◌then◌else◌,
}

abbrev pub gib : ℕ
gib = 1024 ^ 3

pub record VolumeIdentity : Type 0 where
  pub label : String
  pub uuid : String

-- What `json.loads` makes of a marker: no JSON, JSON that is no object, or the texts at the two keys of an
-- object, where they are texts.
pub data Json : Type 0 where
  no_json no_object : Json
  object : Option String → Option String → Json

pub record CacheFile : Type 0 where
  pub name : String
  pub size : ℕ

pub record LogFile : Type 0 where
  pub name : String
  pub is_file : Bool
  pub mtime_ns : ℕ

-- The surroundings at the time of a call: the mount, the marker's text if the file is there, the volume, the
-- free bytes, the size of the whole cache, and for each name under the cache the files below it, sorted by
-- their paths; and the entries of the directory of logs, sorted by name, if it is a directory.
pub record Surroundings : Type 0 where
  pub is_mount : Bool
  pub marker_text : Option String
  pub volume_identity : VolumeIdentity
  pub free : ℕ
  pub cache_bytes : ℕ
  pub files_below : String → List CacheFile
  pub logs : Option (List LogFile)
  pub now_ns : ℕ
  pub loads : String → Json

pub record CapacityGuardConfig : Type 0 where
  pub expected_label : String
  pub expected_uuid : String
  pub min_free_gb : ℕ
  pub cache_max_gb : ℕ
  pub disposable_subdirs : List String
  pub has_runtime_log_dir : Bool
  pub runtime_log_retention_days : ℕ

pub record CapacityGuardResult : Type 0 where
  pub free_gb : ℕ
  pub cache_gb : ℕ
  pub purged : List CacheFile
  pub retained_logs_removed : List LogFile

-- The messages of `CapacityGuardError`.
pub data GuardError : Type 0 where
  not_a_mountpoint marker_missing marker_empty marker_invalid marker_label marker_uuid : GuardError
  volume_label volume_uuid min_free cache_max cache_max_after_purge : GuardError

-- How the preflight ends. What was removed from the cache is gone if it fails afterwards, too.
pub data Verdict : Type 0 where
  passed : CapacityGuardResult → Verdict
  failed : GuardError → List CacheFile → Verdict

abbrev or_empty : Option String → String
or_empty none = ""
or_empty (some s) = s

pub data Marker : Type 0 where
  identified : VolumeIdentity → Marker
  refused : GuardError → Marker

-- `_marker_identity` on what the JSON of the stripped text is
unfoldable pub marker_of : String → Json → Marker
marker_of stripped Json.no_json =
    Marker.identified (record { label = strip (first_line stripped); uuid = "" })
marker_of stripped Json.no_object = Marker.refused GuardError.marker_invalid
marker_of stripped (Json.object label uuid) =
    Marker.identified (record { label = or_empty label; uuid = or_empty uuid })

unfoldable pub marker_identity : (String → Json) → String → Marker
marker_identity loads text =
    let stripped = strip text in
    if str_eq stripped ""
    then Marker.refused GuardError.marker_empty
    else marker_of stripped (loads stripped)

-- `_require_data_volume` from the marker on; `none` is a volume that is accepted.
unfoldable pub check_marker : CapacityGuardConfig → VolumeIdentity → Marker → Option GuardError
check_marker config identity (Marker.refused e) = some e
check_marker config identity (Marker.identified marker) =
    if not (str_eq marker.label config.expected_label)
    then some GuardError.marker_label
    else if not (str_eq marker.uuid "") && not (str_eq marker.uuid config.expected_uuid)
    then some GuardError.marker_uuid
    else if not (str_eq identity.label config.expected_label)
    then some GuardError.volume_label
    else if not (str_eq identity.uuid config.expected_uuid)
    then some GuardError.volume_uuid
    else none

abbrev read_marker : (String → Json) → Option String → Marker
read_marker loads none = Marker.refused GuardError.marker_missing
read_marker loads (some text) = marker_identity loads text

unfoldable pub require_data_volume : CapacityGuardConfig → Surroundings → Option GuardError
require_data_volume config w =
    if not w.is_mount
    then some GuardError.not_a_mountpoint
    else check_marker config w.volume_identity (read_marker w.loads w.marker_text)

-- `sorted` of texts
abbrev precedes : Ordering → Bool
precedes Ordering.gt = false
precedes _ = true

abbrev insert_sorted : String → List String → List String
insert_sorted s [] = s ∷ []
insert_sorted s (t ∷ ts) = if precedes (compare s t) then s ∷ t ∷ ts else t ∷ insert_sorted s ts

abbrev sorted : List String → List String
sorted [] = []
sorted (s ∷ ss) = insert_sorted s (sorted ss)

abbrev files_of : (String → List CacheFile) → List String → List CacheFile
files_of below [] = []
files_of below (s ∷ ss) = below s ++ files_of below ss

unfoldable pub purge_candidates : CapacityGuardConfig → Surroundings → List CacheFile
purge_candidates config w = files_of w.files_below (sorted config.disposable_subdirs)

-- One round of the loop over the candidates, by whether it breaks, with what the rounds after it do.
unfoldable pub purge_round : Bool → ℕ → CacheFile → List CacheFile × ℕ → List CacheFile × ℕ
purge_round true cache_bytes f rest = ([], cache_bytes)
purge_round false cache_bytes f (fs, bytes_left) = (f ∷ fs, bytes_left)

-- The loop: what it removes, and the bytes that are left. A file is counted in the cache's bytes, so that the
-- difference is not negative.
unfoldable pub purge : ℕ → ℕ → List CacheFile → List CacheFile × ℕ
purge max_bytes cache_bytes [] = ([], cache_bytes)
purge max_bytes cache_bytes (f ∷ fs) =
    purge_round (leb cache_bytes max_bytes) cache_bytes f
      (purge max_bytes (cache_bytes - f.size) fs)

-- The cutoff is `now - days`, which may be negative: `t >= now - days` is `now <= t + days`.
unfoldable pub is_expired : ℕ → ℕ → LogFile → Bool
is_expired now_ns retention_days f =
    f.is_file && ltb (f.mtime_ns + retention_days * 24 * 60 * 60 * 1_000_000_000) now_ns

unfoldable pub expired : ℕ → ℕ → List LogFile → List LogFile
expired now_ns retention_days [] = []
expired now_ns retention_days (f ∷ fs) =
    let rest = expired now_ns retention_days fs in
    if is_expired now_ns retention_days f then f ∷ rest else rest

-- The entries that are left once the expired ones are removed.
unfoldable pub remaining : ℕ → ℕ → List LogFile → List LogFile
remaining now_ns retention_days [] = []
remaining now_ns retention_days (f ∷ fs) =
    let rest = remaining now_ns retention_days fs in
    if is_expired now_ns retention_days f then rest else f ∷ rest

-- `apply_runtime_log_retention`: the list that it returns, and the directory as it leaves it.
unfoldable pub apply_runtime_log_retention :
    ℕ → ℕ → Bool → Option (List LogFile) → List LogFile × Option (List LogFile)
apply_runtime_log_retention now_ns retention_days dry_run none = ([], none)
apply_runtime_log_retention now_ns retention_days dry_run (some fs) = (
  expired now_ns retention_days fs,
  some (if dry_run then fs else remaining now_ns retention_days fs),
)

-- After the purge: the second look at the bytes, and the logs.
unfoldable pub finish : CapacityGuardConfig → Surroundings → List CacheFile × ℕ → Verdict
finish config w (purged, cache_bytes) =
    if ltb (config.cache_max_gb * gib) cache_bytes
    then Verdict.failed GuardError.cache_max_after_purge purged
    else Verdict.passed (record {
      free_gb = w.free / gib;
      cache_gb = cache_bytes / gib;
      purged = purged;
      retained_logs_removed =
          if config.has_runtime_log_dir
          then (apply_runtime_log_retention w.now_ns config.runtime_log_retention_days false
              w.logs).0
          else [];
    })

unfoldable pub check_space : CapacityGuardConfig → Surroundings → Bool → Verdict
check_space config w allow_purge =
    if ltb w.free (config.min_free_gb * gib)
    then Verdict.failed GuardError.min_free []
    else if leb w.cache_bytes (config.cache_max_gb * gib)
    then finish config w ([], w.cache_bytes)
    else if not allow_purge
    then Verdict.failed GuardError.cache_max []
    else finish config w
        (purge (config.cache_max_gb * gib) w.cache_bytes (purge_candidates config w))

unfoldable pub after_volume :
    CapacityGuardConfig → Surroundings → Bool → Option GuardError → Verdict
after_volume config w allow_purge (some e) = Verdict.failed e []
after_volume config w allow_purge none = check_space config w allow_purge

unfoldable pub run_capacity_preflight : CapacityGuardConfig → Surroundings → Bool → Verdict
run_capacity_preflight config w allow_purge =
    after_volume config w allow_purge (require_data_volume config w)
