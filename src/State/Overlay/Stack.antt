-- ===== src/State/Overlay/Stack.antt =====
-- Nested transactions as a stack: operations above a begin leave what lies under it alone.
use jam_script.Prelude.{
  ℕ, zero, suc, List, [], ◌∷◌, ◌++◌, ◌≡◌, refl, ◌∙◌, ap, ok, length, arith, subst,
}
use jam_script.Entry.{Entry}
use jam_script.KeyMap
use jam_script.KeyMap.{KeyMap}
use jam_script.State.Overlay.{
  Overlay, begin_transaction, commit_transaction, rollback_transaction, write,
}

abbrev stack_on : List KeyMap → Overlay → Overlay
stack_on upper o = record { writes = o.writes; transactions = upper ++ o.transactions }

-- `u` has `n` open transactions and one more on top of `o`.
pub record Above (n : ℕ) (o u : Overlay) : Type 0 where
  pub upper : List KeyMap
  pub counted : length upper ≡ suc n
  pub stacked : stack_on upper o ≡ u

pub Above-start : (o : Overlay) → Above zero o (begin_transaction o)
unfolding begin_transaction
Above-start o = record { upper = [] ∷ []; counted = refl; stacked = refl }

pub Above-begin : {n : ℕ} {o u : Overlay} → Above n o u → Above (suc n) o (begin_transaction u)
unfolding begin_transaction
Above-begin h = record {
  upper = [] ∷ h.upper;
  counted = ap suc h.counted;
  stacked = ap begin_transaction h.stacked;
}

write-Above :
    (n : ℕ) (o : Overlay) (upper : List KeyMap) (e : Entry)
    → length upper ≡ suc n
    → Above n o (write (stack_on upper o) e)
unfolding write
write-Above n o [] e h = absurd (omega arith)
write-Above n o (top ∷ upper) e h = record {
  upper = KeyMap.insert e top ∷ upper;
  counted = h;
  stacked = refl;
}

pub Above-write : {n : ℕ} {o u : Overlay} (e : Entry) → Above n o u → Above n o (write u e)
Above-write {n} {o} e h =
    subst (λ u. Above n o (write u e)) h.stacked (write-Above n o h.upper e h.counted)

commit-Above :
    (n : ℕ) (o w : Overlay) (upper : List KeyMap)
    → length upper ≡ suc (suc n)
    → commit_transaction (stack_on upper o) ≡ ok w
    → Above n o w
unfolding commit_transaction
commit-Above n o w [] h e = absurd (omega arith)
commit-Above n o w (changes ∷ []) h e = absurd (omega arith)
commit-Above n o w (changes ∷ parent ∷ upper) h e = record {
  upper = KeyMap.extend parent changes ∷ upper;
  counted = omega arith;
  stacked = cc e;
}

pub Above-commit :
    {n : ℕ} {o u : Overlay} (w : Overlay)
    → Above (suc n) o u
    → commit_transaction u ≡ ok w
    → Above n o w
Above-commit {n} {o} w h e =
    commit-Above n o w h.upper h.counted (ap commit_transaction h.stacked ∙ e)

rollback-Above_closed :
    (n : ℕ) (o w : Overlay) (upper : List KeyMap)
    → length upper ≡ suc (suc n)
    → rollback_transaction (stack_on upper o) ≡ ok w
    → Above n o w
unfolding rollback_transaction
rollback-Above_closed n o w [] h e = absurd (omega arith)
rollback-Above_closed n o w (changes ∷ upper) h e = record {
  upper = upper;
  counted = omega arith;
  stacked = cc e;
}

pub Above-rollback :
    {n : ℕ} {o u : Overlay} (w : Overlay)
    → Above (suc n) o u
    → rollback_transaction u ≡ ok w
    → Above n o w
Above-rollback {n} {o} w h e =
    rollback-Above_closed n o w h.upper h.counted (ap rollback_transaction h.stacked ∙ e)

rollback_last :
    (o : Overlay) (upper : List KeyMap)
    → length upper ≡ 1
    → rollback_transaction (stack_on upper o) ≡ ok o
unfolding rollback_transaction
rollback_last o [] h = absurd (omega arith)
rollback_last o (changes ∷ []) h = refl
rollback_last o (changes ∷ more ∷ upper) h = absurd (omega arith)

-- A rollback of the one transaction above `o` gives `o` back.
pub rollback-Above : {o u : Overlay} → Above zero o u → rollback_transaction u ≡ ok o
rollback-Above {o} h =
    subst (λ u. rollback_transaction u ≡ ok o) h.stacked (rollback_last o h.upper h.counted)
