-- ===== src/State/Access.antt =====
-- The two implementations of `ManagedStateAccess` in crates/service-runtime-state/src/lib.rs: the
-- calls that an application makes on the host's transaction and on the guest's proof state.
pub mod Agreement
use jam_script.Prelude.{List, [], ◌∷◌, Option, Bytes, Result, ok, err, ◌>>=◌, map_err}
use jam_script.State.{StateError, StateAccessError, state_access_error}
use jam_script.State.Trie.{TrieLib}
use jam_script.State.Transaction
use jam_script.State.Transaction.{StateTransaction}
use jam_script.State.Proof
use jam_script.State.Proof.{ProofState}

-- The methods of the trait, with their arguments and their results.
pub data Call : Type 0 where
  get : Bytes → Call
  set : Bytes → Bytes → Call
  delete : Bytes → Call
  begin commit rollback : Call

pub data Reply : Type 0 where
  value : Option Bytes → Reply
  done : Reply

-- `…map_err(…)`, with `Ok(())` for the new state.
abbrev answered :
    {S : Type 0}
    → (StateError → StateAccessError)
    → Result StateError S
    → Result StateAccessError (Reply × S)
answered f m = do s ← map_err f m; ok (done, s)

backend_error : StateError → StateAccessError
backend_error e = StateAccessError.backend

module _ (t : TrieLib) where
  unfoldable pub host_call :
      Call → StateTransaction t → Result StateAccessError (Reply × StateTransaction t)
  unfolding state_access_error backend_error
  host_call (get key) s =
      let (result, s') = Transaction.get t s key in
      do v ← map_err state_access_error result; ok (value v, s')
  host_call (set key v) s = answered state_access_error (Transaction.set t s key v)
  host_call (delete key) s = answered state_access_error (Transaction.delete t s key)
  host_call begin s = ok (done, Transaction.begin_transaction t s)
  host_call commit s = answered backend_error (Transaction.commit_transaction t s)
  host_call rollback s = answered backend_error (Transaction.rollback_transaction t s)

  unfoldable pub guest_call : Call → ProofState t → Result StateAccessError (Reply × ProofState t)
  unfolding state_access_error backend_error
  guest_call (get key) p = do
    (v, p') ← map_err state_access_error (Proof.get t p key)
    ok (value v, p')
  guest_call (set key v) p = answered state_access_error (Proof.set t p key v)
  guest_call (delete key) p = answered state_access_error (Proof.delete t p key)
  guest_call begin p = ok (done, Proof.begin_transaction t p)
  guest_call commit p = answered backend_error (Proof.commit_transaction t p)
  guest_call rollback p = answered backend_error (Proof.rollback_transaction t p)

  -- A run of calls, which ends at the first error.
  unfoldable pub host_run :
      List Call → StateTransaction t → Result StateAccessError (List Reply × StateTransaction t)
  host_run [] s = ok ([], s)
  host_run (c ∷ cs) s = do
    (reply, s') ← host_call c s
    (replies, s'') ← host_run cs s'
    ok (reply ∷ replies, s'')

  unfoldable pub guest_run :
      List Call → ProofState t → Result StateAccessError (List Reply × ProofState t)
  guest_run [] p = ok ([], p)
  guest_run (c ∷ cs) p = do
    (reply, p') ← guest_call c p
    (replies, p'') ← guest_run cs p'
    ok (reply ∷ replies, p'')
