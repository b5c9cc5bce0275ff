-- ===== src/Manager/Channels.antt =====
-- The life of the stop channels: a channel is open as long as its volume is managed, and is closed
-- once.
use csi_driver_trusted_ca.Common.{
  ℕ, ◌+◌, ◌<◌, ◌≡◌, ◌≢◌, refl, sym, ◌∙◌, true, false, [], ◌∷◌, none, some, Bytes, Dict, lookup,
  insert, erase, lookup-insert, lookup-erase, Distinct, Distinct-insert, Distinct-erase, contains,
  list_eq, nat_eq, =?_iff, arith, inl, inr, ◌⊎◌, Option-cases, Bool-cases, ◌==◌,
}
use csi_driver_trusted_ca.Manager.{
  Manager, empty, is_managed, close_channel, manage_volume_if_not_managed, manage_volume,
  unmanage_volume, stop_each, stop,
}

abbrev pub Managed : Bytes → ℕ → Manager → Type 0
Managed k ch m = lookup k m.managed_volumes ≡ some ch

pub record IsValid (m : Manager) : Type 0 where
  pub calm : m.panicked ≡ false
  pub distinct : Distinct m.managed_volumes
  pub still_open : (k : Bytes) (ch : ℕ) → Managed k ch m → contains m.closed ch ≡ false
  pub made : (k : Bytes) (ch : ℕ) → Managed k ch m → ch < m.next_channel
  pub closed_made : (ch : ℕ) → contains m.closed ch ≡ true → ch < m.next_channel
  pub one_volume : (j k : Bytes) (ch : ℕ) → Managed j ch m → Managed k ch m → j ≡ k
  pub accounted :
      (ch : ℕ)
      → ch < m.next_channel
      → (contains m.closed ch ≡ true) ⊎ ((k : Bytes) × Managed k ch m)

pub empty-IsValid : IsValid empty
unfolding lookup contains
empty-IsValid = record {
  calm = refl;
  distinct = tt;
  still_open = λ k ch h. cc;
  made = λ k ch h. absurd (cc);
  closed_made = λ ch h. absurd (cc);
  one_volume = λ j k ch h _. absurd (cc);
  accounted = λ ch h. absurd (omega arith);
}

-- a volume that is taken on gets a new channel
unfoldable pub taken_on : Bytes → Manager → Manager
taken_on k m = record m {
  managed_volumes = insert k m.next_channel m.managed_volumes;
  next_channel = m.next_channel + 1;
}

module _ (k : Bytes) (m : Manager) (v : IsValid m) where
  found_on :
      (j : Bytes) (ch : ℕ)
      → Managed j ch (taken_on k m)
      → ((k ≡ j) × (ch ≡ m.next_channel)) ⊎ Managed j ch m
  unfolding taken_on
  found_on j ch h = ground (arith, lookup-insert k j m.next_channel m.managed_volumes, =?_iff k j)

  taken_on-IsValid : lookup k m.managed_volumes ≡ none → IsValid (taken_on k m)
  unfolding taken_on
  taken_on-IsValid new = record {
    calm = v.calm;
    distinct = Distinct-insert k m.next_channel m.managed_volumes v.distinct;
    still_open = λ j ch h. elim (found_on j ch h) [
      | inl (e, c) ↦ ground (arith, v.closed_made ch)
      | inr o ↦ v.still_open j ch o
    ];
    made = λ j ch h. elim (found_on j ch h) [
      | inl (e, c) ↦ omega arith
      | inr o ↦ omega (arith, v.made j ch o)
    ];
    closed_made = λ ch h. omega (arith, v.closed_made ch h);
    one_volume = λ i j ch h g. elim (found_on i ch h) [
      | inl (e, c) ↦ elim (found_on j ch g) [
        | inl (e', c') ↦ sym e ∙ e'
        | inr o ↦ absurd (omega (arith, v.made j ch o))
      ]
      | inr o ↦ elim (found_on j ch g) [
        | inl (e, c) ↦ absurd (omega (arith, v.made i ch o))
        | inr o' ↦ v.one_volume i j ch o o'
      ]
    ];
    accounted = λ ch h. elim (Bool-cases (ch == m.next_channel)) [
      | inl e ↦
          inr (k, ground (arith, lookup-insert k k m.next_channel m.managed_volumes, =?_iff k k))
      | inr e ↦ elim (v.accounted ch (ground arith)) [
        | inl c ↦ inl c
        | inr (j, o) ↦
            inr (j, ground (arith, lookup-insert k j m.next_channel m.managed_volumes, =?_iff k j))
      ]
    ];
  }

-- a volume that is given up has its channel closed
unfoldable pub given_up : Bytes → ℕ → Manager → Manager
unfolding close_channel
given_up k ch m = record (close_channel ch m) { managed_volumes = erase k m.managed_volumes }

module _ (k : Bytes) (ch : ℕ) (m : Manager) (v : IsValid m) (h : Managed k ch m) where
  kept_on : (j : Bytes) (c : ℕ) → Managed j c (given_up k ch m) → Managed j c m × (k ≢ j)
  unfolding given_up
  kept_on j c g = ground (arith, lookup-erase k j m.managed_volumes, =?_iff k j)

  given_up-IsValid : IsValid (given_up k ch m)
  unfolding given_up close_channel contains
  given_up-IsValid = rw (v.still_open k ch h) (record {
    calm = v.calm;
    distinct = Distinct-erase k m.managed_volumes v.distinct;
    still_open = λ j c g. elim (Bool-cases (ch == c)) [
      | inl e ↦
          absurd ((kept_on j c g).1 (v.one_volume k j ch h (ground (arith, (kept_on j c g).0))))
      | inr e ↦ rw (e, contains) (v.still_open j c (kept_on j c g).0)
    ];
    made = λ j c g. v.made j c (kept_on j c g).0;
    closed_made = λ c g. elim (Bool-cases (ch == c)) [
      | inl e ↦ ground (arith, v.made k ch h)
      | inr e ↦ v.closed_made c (ground arith)
    ];
    one_volume = λ i j c a b. v.one_volume i j c (kept_on i c a).0 (kept_on j c b).0;
    accounted = λ c g. elim (Bool-cases (ch == c)) [
      | inl e ↦ inl (rw (e, contains) refl)
      | inr e ↦ elim (v.accounted c g) [
        | inl o ↦ inl (rw (e, contains) o)
        | inr (j, o) ↦ inr (j, ground (arith, lookup-erase k j m.managed_volumes, =?_iff k j, o, h))
      ]
    ];
  })

module _ (k : Bytes) (m : Manager) where
  pub manage_new :
      lookup k m.managed_volumes ≡ none → manage_volume_if_not_managed k m ≡ (true, taken_on k m)
  unfolding manage_volume_if_not_managed is_managed taken_on
  manage_new h = ground arith

  pub manage_again : {ch : ℕ} → Managed k ch m → manage_volume_if_not_managed k m ≡ (false, m)
  unfolding manage_volume_if_not_managed is_managed
  manage_again h = ground arith

  pub unmanage_none : lookup k m.managed_volumes ≡ none → unmanage_volume k m ≡ m
  unfolding unmanage_volume
  unmanage_none h = rw (h, unmanage_volume)

  pub unmanage_some : {ch : ℕ} → Managed k ch m → unmanage_volume k m ≡ given_up k ch m
  unfolding unmanage_volume given_up
  unmanage_some h = rw (h, unmanage_volume)

pub unmanaged_lookup :
    (id : Bytes) (m : Manager) → is_managed id m ≡ false → lookup id m.managed_volumes ≡ none
unfolding is_managed
unmanaged_lookup id m h = ground arith

pub manage_volume_if_not_managed-IsValid :
    (k : Bytes) (m : Manager) → IsValid m → IsValid (manage_volume_if_not_managed k m).1
manage_volume_if_not_managed-IsValid k m v = elim (Option-cases (lookup k m.managed_volumes)) [
  | inl e ↦ rw (manage_new k m e) (taken_on-IsValid k m v e)
  | inr (ch, e) ↦ rw (manage_again k m e) v
]

pub manage_volume_lem :
    (k : Bytes) (m : Manager) → (manage_volume k m).1 ≡ (manage_volume_if_not_managed k m).1
unfolding manage_volume
manage_volume_lem k m = ground arith

pub manage_volume-IsValid : (k : Bytes) (m : Manager) → IsValid m → IsValid (manage_volume k m).1
manage_volume-IsValid k m v = rw manage_volume_lem (manage_volume_if_not_managed-IsValid k m v)

pub unmanage_volume-IsValid : (k : Bytes) (m : Manager) → IsValid m → IsValid (unmanage_volume k m)
unmanage_volume-IsValid k m v = elim (Option-cases (lookup k m.managed_volumes)) [
  | inl e ↦ rw (unmanage_none k m e) v
  | inr (ch, e) ↦ rw (unmanage_some k m e) (given_up-IsValid k ch m v e)
]

-- the entries that the loop of Stop has not reached are those that are left
rest_of :
    (k : Bytes) (ch : ℕ) (entries : Dict Bytes ℕ) (m : Manager)
    → lookup k entries ≡ none
    → ((j : Bytes) → lookup j ((k, ch) ∷ entries) ≡ lookup j m.managed_volumes)
    → (j : Bytes) → lookup j entries ≡ lookup j (given_up k ch m).managed_volumes
unfolding lookup given_up close_channel
rest_of k ch entries m new same j =
    ground (arith, same j, lookup-erase k j m.managed_volumes, =?_iff k j)

first_of_entries :
    (k : Bytes) (ch : ℕ) (entries : Dict Bytes ℕ) (m : Manager)
    → ((j : Bytes) → lookup j ((k, ch) ∷ entries) ≡ lookup j m.managed_volumes)
    → Managed k ch m
unfolding lookup
first_of_entries k ch entries m same = ground (arith, same k, =?_iff k k)

stop_each-IsValid :
    (entries : Dict Bytes ℕ) (m : Manager)
    → IsValid m
    → Distinct entries
    → ((k : Bytes) → lookup k entries ≡ lookup k m.managed_volumes)
    → IsValid (stop_each entries m)
      × ((k : Bytes) → lookup k (stop_each entries m).managed_volumes ≡ none)
unfolding stop_each given_up
stop_each-IsValid [] m v _ same = (v, λ k. sym (same k) ∙ unfold lookup in refl)
stop_each-IsValid ((k, ch) ∷ entries) m v (new, ds) same =
    stop_each-IsValid entries (given_up k ch m)
      (given_up-IsValid k ch m v (first_of_entries k ch entries m same)) ds
      (rest_of k ch entries m new same)

-- Stop leaves no volume managed.
pub stop-IsValid :
    (m : Manager)
    → IsValid m
    → IsValid (stop m) × ((k : Bytes) → lookup k (stop m).managed_volumes ≡ none)
unfolding stop
stop-IsValid m v = stop_each-IsValid m.managed_volumes m v v.distinct (λ k. refl)
