-- ===== src/Store/Instances.antt =====
-- The sidechain instances of shared/src/store.rs: their identity (with shared/src/bip300.rs), the
-- tables that hold them, and the instance that a fact is filed under.
use bip300_monitor.Base.{
  ℕ, Bool, ◌&&◌, String, string_discrete, Option, none, some, List, [], ◌∷◌, ◌++◌, reverse, Bytes,
  bytes_discrete, any, filter, same, leb, ◌==◌, if◌then◌else◌,
}
use bip300_monitor.Failure.{Result, ok, bail, or_bail, context, ◌>>=◌, ◌>>◌}
use bip300_monitor.Proto.{
  ActiveSidechain, EnforcerPayload, active_sidechains, MonitorEvent, enforcer, Event,
}
use bip300_monitor.Store.Types.{Externals, SidechainInstanceRef, height_to_i32}
use bip300_monitor.Store.Rows.{Db}

-- `bip300::sidechain_description_hash`: the hash in display order of the decoded description.
unfoldable pub sidechain_description_hash : Externals → Bytes → Result Bytes
sidechain_description_hash ext encoded = do
  description ← or_bail (ext.deserialize encoded) "decoding the sidechain description"
  ok (reverse (ext.sha256d description))

-- `sidechain_instance_identity`, without the description hash that it also returns.
unfoldable pub sidechain_instance_ref : Externals → ActiveSidechain → Result SidechainInstanceRef
unfolding sidechain_description_hash
sidechain_instance_ref ext s =
    if leb 256 s.sidechain_number then bail "active sidechain slot does not fit in a u8" else do
      hash ← context (sidechain_description_hash ext s.raw_description) "calculating the hash"
      if same bytes_discrete s.description_hash hash
          then ok (record {
            sidechain = s.sidechain_number;
            sidechain_instance_id =
                ext.instance_text s.sidechain_number s.proposal_height s.activation_height hash;
            activation_height = s.activation_height;
          })
          else bail "active sidechain slot reports another description hash"

-- `INSERT INTO sidechain_instance … ON CONFLICT (dataset_id, sidechain_instance_id)`.
abbrev register_instance : (ℕ × String) → List (ℕ × String) → List (ℕ × String)
register_instance i known =
    if any (λ k. same string_discrete k.1 i.1) known then known else known ++ i ∷ []

-- The loop over the snapshot: each instance is recorded, and `current` collects them in order.
record_instances :
    Externals
    → List ActiveSidechain
    → List (ℕ × String)
    → Result (List (ℕ × String) × List (ℕ × String))
unfolding sidechain_instance_ref height_to_i32 string_discrete
record_instances ext [] known = ok (known, [])
record_instances ext (s ∷ rest) known =
    if leb 256 s.sidechain_number then bail "active sidechain slot is outside 0..=255" else do
      height_to_i32 s.proposal_height >>= λ _. ok tt
      height_to_i32 s.activation_height >>= λ _. ok tt
      instance_ref ← sidechain_instance_ref ext s
      let entry : ℕ × String = (instance_ref.sidechain, instance_ref.sidechain_instance_id)
      recorded ← record_instances ext rest (register_instance entry known)
      ok (recorded.0, entry ∷ recorded.1)

abbrev pub same_entry : (ℕ × String) → (ℕ × String) → Bool
same_entry a b = a.0 == b.0 && same string_discrete a.1 b.1

-- `ON CONFLICT (dataset_id, sidechain) DO NOTHING`.
insert_current : List (ℕ × String) → List (ℕ × String) → List (ℕ × String)
insert_current [] current = current
insert_current (i ∷ rest) current =
    insert_current rest (if any (λ c. c.0 == i.0) current then current else current ++ i ∷ [])

abbrev payload_instances : Option EnforcerPayload → Option (List ActiveSidechain)
payload_instances (some (active_sidechains sidechains)) = some sidechains
payload_instances _ = none

abbrev instances_of : Option MonitorEvent → Option (List ActiveSidechain)
instances_of (some (enforcer event)) = payload_instances event.event
instances_of _ = none

-- `instance_cache`, the slots that a batch has resolved. It is a map, where the entry that came last
-- counts: the list has the last one first.
abbrev pub Cache : Type 0
Cache = List (ℕ × String)

-- `update_sidechain_instances`: every reading registers its instances, and an authoritative one
-- replaces the current instances that differ from it, and the cache.
unfoldable pub update_sidechain_instances :
    Externals → Bool → Event → Db × Cache → Result (Db × Cache)
unfolding record_instances insert_current
update_sidechain_instances ext authoritative event (db, cache) =
    elim (instances_of event.monitor_event) [
      | none ↦ ok (db, cache)
      | some sidechains ↦ do
        recorded ← record_instances ext sidechains db.instances
        let registered : Db = record db { instances = recorded.0 }
        let kept : Cache = filter (λ c. any (same_entry c) recorded.1) db.current
        if authoritative
            then ok
                (record registered { current = insert_current recorded.1 kept }, reverse recorded.1)
            else ok (registered, cache)
    ]

abbrev pub slot_instance : ℕ → List (ℕ × String) → Option String
slot_instance slot [] = none
slot_instance slot ((s, id) ∷ rest) = if s == slot then some id else slot_instance slot rest

-- The instance that a fact is filed under, and the cache with a slot that was looked up.
unfoldable pub resolve_instance :
    Option ℕ → Option ℕ → Option String → Db → Cache → Result (Option String × Cache)
resolve_instance none none none db cache = ok (none, cache)
resolve_instance none _ _ db cache = bail "a global event was given a sidechain instance"
resolve_instance (some slot) (some explicit) (some id) db cache =
    if slot == explicit
    then ok (some id, cache)
    else bail "a slot event was assigned to another slot"
resolve_instance (some slot) none none db cache = elim (slot_instance slot cache) [
  | some id ↦ ok (some id, cache)
  | none ↦ elim (slot_instance slot db.current) [
    | some id ↦ ok (some id, (slot, id) ∷ cache)
    | none ↦ bail "no active sidechain instance is registered for the slot"
  ]
]
resolve_instance (some _) _ _ db cache = bail "an explicit sidechain instance is incomplete"
