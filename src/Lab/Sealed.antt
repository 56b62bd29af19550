-- ===== src/Lab/Sealed.antt =====
-- src/lab/promote.py: the object in the sealed file of a promotion, as `_body` and `_persist` make it and `load`
-- takes it apart. A dictionary is the list of its keys in alphabetical order, with their values: neither
-- `sort_keys=True` nor a look-up shows another one. The fields of a promotion are texts, as their types say.
use self_evaluating_trading.Common.{
  ℕ, suc, Bool, false, ◌==◌, Option, none, some, List, [], ◌∷◌, String, str_eq, if◌then◌else◌,
}

pub record HistoryEntry : Type 0 where
  pub origin : String
  pub target : String
  pub timestamp : String
  pub evidence : String
  pub reason : String

-- What a promotion holds besides its root.
pub record Promotion : Type 0 where
  pub strategy_identity : String
  pub state : String
  pub spec_id : String
  pub history : List HistoryEntry

-- A value of `json`. Numbers, Booleans and null are values of another kind, by their text.
mutual
  pub data Json : Type 0 where
    text : String → Json
    other : String → Json
    array : Items → Json
    object : Fields → Json

  pub data Items : Type 0 where
    no_items : Items
    item : Json → Items → Items

  pub data Fields : Type 0 where
    no_fields : Fields
    field : String → Json → Fields → Fields

-- `payload.get(key)`
unfoldable pub get : String → Fields → Option Json
get key no_fields = none
get key (field k v fs) = if str_eq key k then some v else get key fs

abbrev pub count_fields : Fields → ℕ
count_fields no_fields = 0
count_fields (field k v fs) = suc (count_fields fs)

-- `asdict(entry)`
unfoldable pub entry_object : HistoryEntry → Json
entry_object e = object (
    field "evidence" (text e.evidence) (
      field "origin" (text e.origin) (
        field "reason" (text e.reason)
          (field "target" (text e.target) (field "timestamp" (text e.timestamp) no_fields)))))

unfoldable pub entry_objects : List HistoryEntry → Items
entry_objects [] = no_items
entry_objects (e ∷ es) = item (entry_object e) (entry_objects es)

-- `_body`
unfoldable pub body : Promotion → Fields
body p = field "current_state" (text p.state) (
    field "history" (array (entry_objects p.history)) (
      field "spec_id" (text p.spec_id)
        (field "strategy_identity" (text p.strategy_identity) no_fields)))

-- The object that `_persist` writes, with the seal of the body.
unfoldable pub sealed : Promotion → String → Fields
sealed p state_hash = field "current_state" (text p.state) (
    field "history" (array (entry_objects p.history)) (
      field "spec_id" (text p.spec_id) (
        field "state_hash" (text state_hash)
          (field "strategy_identity" (text p.strategy_identity) no_fields))))

abbrev pub text_of : Option Json → Option String
text_of (some (text s)) = some s
text_of _ = none

abbrev pub entry_with :
    Option String
    → Option String
    → Option String
    → Option String
    → Option String
    → Option HistoryEntry
entry_with (some o) (some g) (some t) (some e) (some r) =
    some (record { origin = o; target = g; timestamp = t; evidence = e; reason = r })
entry_with _ _ _ _ _ = none

-- `HistoryEntry(**entry)`, which raises for a missing key and for one too many
unfoldable pub entry_of : Json → Option HistoryEntry
entry_of (object fs) =
    if count_fields fs == 5
    then entry_with (text_of (get "origin" fs)) (text_of (get "target" fs))
        (text_of (get "timestamp" fs)) (text_of (get "evidence" fs)) (text_of (get "reason" fs))
    else none
entry_of _ = none

abbrev pub both : Option HistoryEntry → Option (List HistoryEntry) → Option (List HistoryEntry)
both (some e) (some es) = some (e ∷ es)
both _ _ = none

unfoldable pub entries_of : Items → Option (List HistoryEntry)
entries_of no_items = some []
entries_of (item j js) = both (entry_of j) (entries_of js)

-- The entries of `body["history"]`: an empty text and an empty object have none either.
unfoldable pub history_of : Option Json → Option (List HistoryEntry)
history_of (some (array js)) = entries_of js
history_of (some (object no_fields)) = some []
history_of (some (text s)) = if str_eq s "" then some [] else none
history_of _ = none

-- `payload.get("state_hash") == seal`
abbrev pub is_text : String → Option String → Bool
is_text h none = false
is_text h (some g) = str_eq g h

unfoldable pub has_hash : String → Fields → Bool
has_hash h fs = is_text h (text_of (get "state_hash" fs))

-- The values of the four keys, as the dictionary that the seal is compared with.
abbrev pub body_with : Option Json → Option Json → Option Json → Option Json → Option Fields
body_with (some c) (some h) (some s) (some i) = some (
    field "current_state" c
      (field "history" h (field "spec_id" s (field "strategy_identity" i no_fields))))
body_with _ _ _ _ = none

-- `none` is the `KeyError`
unfoldable pub body_of : Fields → Option Fields
body_of fs =
    body_with (get "current_state" fs) (get "history" fs) (get "spec_id" fs)
      (get "strategy_identity" fs)

abbrev pub promotion_with :
    Option String → Option String → Option String → Option (List HistoryEntry) → Option Promotion
promotion_with (some i) (some s) (some c) (some h) =
    some (record { strategy_identity = i; state = c; spec_id = s; history = h })
promotion_with _ _ _ _ = none

-- The promotion of a body.
unfoldable pub promotion_of : Fields → Option Promotion
promotion_of fs =
    promotion_with (text_of (get "strategy_identity" fs)) (text_of (get "spec_id" fs))
      (text_of (get "current_state" fs)) (history_of (get "history" fs))
