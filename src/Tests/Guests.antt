-- ===== src/Tests/Guests.antt =====
-- Calls that the guest answers from a proof, beside the host.
use jam_script.Prelude.{
  arith, [], ◌∷◌, none, some, Option, ◌≡◌, ◌⊎◌, refl, Bytes, bytes_eq, ok, err,
}
use jam_script.Keys.{is_reserved_service_storage_key}
use jam_script.KeyMap
use jam_script.Diff.{StateDiff}
use jam_script.State.{StateError}
use jam_script.State.Trie.{RootLaws}
use jam_script.State.Overlay
use jam_script.State.Full
use jam_script.State.Transaction
use jam_script.State.Transaction.{StateTransaction}
use jam_script.State.Proof
use jam_script.State.Proof.{ProofState}
use jam_script.State.Proof.Simulation.{Agrees, Simulates}
use jam_script.State.Access.{set, get, value, done, guest_call, host_run, guest_run}
use jam_script.State.Access.Agreement.{guest_run-Simulates, Simulates-start, finish-Simulates}
use jam_script.Tests.States.{map_trie}

abbrev guest : ProofState map_trie
guest = record { db = []; base_cache = []; overlay = Overlay.new }

guest_start : Proof.from_proof map_trie [] [] ≡ ok guest
unfolding Proof.from_proof KeyMap.get
guest_start = refl

start-Agrees : Agrees map_trie [] []
start-Agrees k v h = h

abbrev one_write : Overlay.Overlay
one_write = record {
  writes = record { key = 2 ∷ []; value = some (8 ∷ []) } ∷ [];
  transactions = [];
}

abbrev guest_written : ProofState map_trie
guest_written = record {
  db = [];
  base_cache = record { key = 2 ∷ []; value = none } ∷ [];
  overlay = one_write;
}

guest_sets : guest_call map_trie (set (2 ∷ []) (8 ∷ [])) guest ≡ ok (done, guest_written)
unfolding guest_call Proof.set Proof.witness_key Proof.base_value is_reserved_service_storage_key
    bytes_eq Overlay.write Overlay.overlay_value KeyMap.insert KeyMap.get
guest_sets = refl

guest_runs :
    guest_run map_trie (set (2 ∷ []) (8 ∷ []) ∷ get (2 ∷ []) ∷ []) guest
    ≡ ok (done ∷ value (some (8 ∷ [])) ∷ [], guest_written)
unfolding guest_run guest_call Proof.set Proof.get Proof.witness_key Proof.base_value
    is_reserved_service_storage_key bytes_eq Overlay.write Overlay.overlay_value KeyMap.insert
    KeyMap.get
guest_runs = refl

guest_run-Simulates_example :
    (s : StateTransaction map_trie) × (host_run map_trie
        (set (2 ∷ []) (8 ∷ []) ∷ get (2 ∷ []) ∷ [])
        (Transaction.new map_trie [])
      ≡ ok (done ∷ value (some (8 ∷ [])) ∷ [], s))
    × Simulates map_trie guest_written s
guest_run-Simulates_example =
    guest_run-Simulates map_trie (set (2 ∷ []) (8 ∷ []) ∷ get (2 ∷ []) ∷ []) guest
      (Transaction.new map_trie []) (done ∷ value (some (8 ∷ [])) ∷ []) guest_written
      (Simulates-start map_trie [] [] [] guest start-Agrees guest_start) guest_runs

abbrev host_written : StateTransaction map_trie
host_written = record { base = []; overlay = one_write; touched = (2 ∷ []) ∷ [] }

cached_none :
    (k : Bytes) (v : Option Bytes)
    → KeyMap.get k guest_written.base_cache ≡ some v
    → map_trie.get [] k ≡ some v
unfolding KeyMap.get
cached_none k v h = ground arith

written-Simulates : Simulates map_trie guest_written host_written
written-Simulates = record { same_overlay = refl; agrees = start-Agrees; cached = cached_none }

abbrev two_written : KeyMap.KeyMap
two_written = record { key = 2 ∷ []; value = some (8 ∷ []) } ∷ []

abbrev final_diff : StateDiff
final_diff = record { changes = two_written }

guest_finishes : Proof.finish map_trie guest_written ≡ ok ([], record { changes = two_written })
unfolding Proof.finish Full.is_empty Full.apply_changes KeyMap.insert
guest_finishes = refl

host_finishes :
    Transaction.finish map_trie host_written ≡ ok (two_written, record { changes = two_written })
unfolding Transaction.finish Transaction.finish_with_proof Full.proof_for Full.apply_diff
    Full.is_empty Full.apply_changes KeyMap.insert
host_finishes = refl

map_trie_roots : RootLaws map_trie
map_trie_roots = record {
  root-insert = λ db db' full full' k v same e f. refl;
  root-remove = λ db db' full full' k same e f. refl;
}

finish-Simulates_example :
    (host_written.overlay.transactions ≡ [])
    × (((next : KeyMap.KeyMap) × (Transaction.finish map_trie host_written ≡ ok (next, final_diff))
          × ([] ≡ map_trie.root next))
        ⊎ ((e : StateError) × (Transaction.finish map_trie host_written ≡ err e)))
finish-Simulates_example =
    finish-Simulates map_trie map_trie_roots guest_written host_written [] final_diff
      written-Simulates refl guest_finishes
