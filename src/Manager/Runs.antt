-- ===== src/Manager/Runs.antt =====
-- Sequences of calls of the manager's methods. Each holds the lock, so the calls of several requests
-- are one sequence.
use mathlib.Core.Path.{fun_ext, ap}
use csi_driver_trusted_ca.Common.{
  ℕ, ◌<◌, ◌≡◌, refl, ◌∙◌, Bool, true, false, List, [], ◌∷◌, Bytes, lookup, lookup-insert,
  lookup-erase, contains, list_eq, nat_eq, if◌then◌else◌, ◌=?◌, =?_iff, arith, inl, inr, ◌↔◌,
  Option-cases,
}
use csi_driver_trusted_ca.Manager.{Manager, empty, is_managed, manage_volume, unmanage_volume, stop}
use csi_driver_trusted_ca.Manager.Channels.{
  Managed, IsValid, empty-IsValid, taken_on, given_up, manage_new, manage_again, manage_volume_lem,
  unmanage_none, unmanage_some, manage_volume-IsValid, unmanage_volume-IsValid, stop-IsValid,
}

pub data Call : Type 0 where
  manage : Bytes → Call
  unmanage : Bytes → Call
  stop_all : Call

unfoldable pub call : Call → Manager → Manager
call (manage k) m = (manage_volume k m).1
call (unmanage k) m = unmanage_volume k m
call stop_all m = stop m

unfoldable pub calls : List Call → Manager → Manager
calls [] m = m
calls (c ∷ cs) m = calls cs (call c m)

call-IsValid : (c : Call) (m : Manager) → IsValid m → IsValid (call c m)
unfolding call
call-IsValid (manage k) m v = manage_volume-IsValid k m v
call-IsValid (unmanage k) m v = unmanage_volume-IsValid k m v
call-IsValid stop_all m v = (stop-IsValid m v).0

calls-IsValid : (cs : List Call) (m : Manager) → IsValid m → IsValid (calls cs m)
unfolding calls
calls-IsValid [] m v = v
calls-IsValid (c ∷ cs) m v = calls-IsValid cs (call c m) (call-IsValid c m v)

-- Whatever calls are made of a new manager, no channel is closed twice: the program does not panic.
calls_calm : (cs : List Call) → (calls cs empty).panicked ≡ false
calls_calm cs = (calls-IsValid cs empty empty-IsValid).calm

-- Whatever calls are made of a new manager, a channel that was made is closed exactly if no volume
-- is managed under it.
pub calls_channels :
    (cs : List Call) (ch : ℕ)
    → ch < (calls cs empty).next_channel
    → (contains (calls cs empty).closed ch ≡ true)
      ↔ ((k : Bytes) → ¬ (Managed k ch (calls cs empty)))
calls_channels cs ch lt =
    let v = calls-IsValid cs empty empty-IsValid in
    (
      (λ c k h. ground (arith, v.still_open k ch h)),
      (λ no. elim (v.accounted ch lt) [ inl c ↦ c | inr (k, h) ↦ absurd (no k h) ]),
    )

-- Whatever calls are made of a new manager, no two volumes are managed under one channel.
calls_one_volume :
    (cs : List Call) (ch : ℕ) (j k : Bytes)
    → Managed j ch (calls cs empty)
    → Managed k ch (calls cs empty)
    → j ≡ k
calls_one_volume cs ch j k = (calls-IsValid cs empty empty-IsValid).one_volume j k ch

-- The manager as a set of volumes.
abbrev pub set_call : Call → (Bytes → Bool) → Bytes → Bool
set_call (manage k) s j = if k =? j then true else s j
set_call (unmanage k) s j = if k =? j then false else s j
set_call stop_all s j = false

pub set_calls : List Call → (Bytes → Bool) → Bytes → Bool
set_calls [] s = s
set_calls (c ∷ cs) s = set_calls cs (set_call c s)

pub is_managed-call :
    (c : Call) (m : Manager) (v : IsValid m) (j : Bytes)
    → is_managed j (call c m) ≡ set_call c (λ k. is_managed k m) j
unfolding call is_managed
is_managed-call (manage k) m v j =
    rw manage_volume_lem (elim (Option-cases (lookup k m.managed_volumes)) [
      | inl e ↦
          rw (manage_new k m e)
            (unfold taken_on in ground (arith, lookup-insert k j m.next_channel m.managed_volumes))
      | inr (ch, e) ↦ rw (manage_again k m e) (ground (arith, =?_iff k j))
    ])
is_managed-call (unmanage k) m v j = elim (Option-cases (lookup k m.managed_volumes)) [
  | inl e ↦ rw (unmanage_none k m e) (ground (arith, =?_iff k j))
  | inr (ch, e) ↦
      rw (unmanage_some k m e)
        (unfold given_up in ground (arith, lookup-erase k j m.managed_volumes))
]
is_managed-call stop_all m v j = rw ((stop-IsValid m v).1 j, is_managed)

-- From a well-formed manager, any sequence of calls manages the volumes that the same calls of a set
-- of volumes leave in it.
pub calls_refine :
    (cs : List Call) (m : Manager)
    → IsValid m
    → (j : Bytes) → is_managed j (calls cs m) ≡ set_calls cs (λ k. is_managed k m) j
unfolding calls set_calls
calls_refine [] m v j = refl
calls_refine (c ∷ cs) m v j =
    calls_refine cs (call c m) (call-IsValid c m v) j
    ∙ ap (λ f. set_calls cs f j) (fun_ext (is_managed-call c m v))
