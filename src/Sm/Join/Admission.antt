-- ===== src/Sm/Join/Admission.antt =====
-- Which hosts process_join_request of daemon/sm.c lets into the liveset.
use xha.Prelude.{
  ℕ, suc, ◌<◌, ◌≡◌, ◌≢◌, true, false, ◌||◌, ◌==◌, if◌then◌else◌, arith, Bool-cases, inl, inr, ◌⊎◌,
}
use xha.Prelude.Hosts.{for_hosts_inv, all_hosts_elim}
use xha.HostMap.{HostMap, is_on, init_reset}
use xha.HostMap.Laws.{is_on-set, is_on-init_reset}
use xha.HostMap.Sets.{is_on-union}
use xha.Config.{Config}
use xha.Data.{Daemon}
use xha.Sm.Membership.{is_empty_liveset}
use xha.Sm.Join.{
  Joining, is_requesting, is_member, is_allowed, join_step, find_joining, process_join_request,
}

-- A host that has just been let in: it has told us that it is a member, or it asks to join and
-- every member has agreed. In both cases it is on the heartbeat, and in the new proposal if we are
-- a member.
module _ (cfg : Config) (d : Daemon) where
  -- Host `j` is let in by what the hosts of the liveset have published.
  pub record Admitted (proposed : HostMap) (j : ℕ) : Type 0 where
    pub is_new : is_on d.sm.current_liveset j ≡ false
    pub other : j ≢ cfg.my_index
    pub heard : is_on d.hb.hbdomain j ≡ true
    pub agreed :
        (is_on (d.hb.raw j).current_liveset j ≡ true)
        ⊎ ((m : ℕ)
            → m < cfg.hostnum
            → m ≢ cfg.my_index
            → is_on d.sm.current_liveset m ≡ true
            → is_on (d.hb.raw m).proposed_liveset j ≡ true)
    pub acked :
        cfg.my_index < cfg.hostnum
        → is_on d.sm.current_liveset cfg.my_index ≡ true
        → is_on proposed j ≡ true

  record Looked (k : ℕ) (s : Joining) : Type 0 where
    kept : (j : ℕ) → is_on d.sm.proposed_liveset j ≡ true → is_on s.proposed_liveset j ≡ true
    joined : (j : ℕ) → is_on s.joining_set j ≡ true → (j < k) × Admitted s.proposed_liveset j
    blocked :
        d.var.join_block ≡ true
        → (j : ℕ) → is_on s.proposed_liveset j ≡ true
        → (is_on d.sm.proposed_liveset j ≡ true) ⊎ (is_member cfg d.hb j ≡ true)

  is_allowed_elim :
      (proposed : HostMap) (j : ℕ)
      → is_allowed cfg d.sm d.hb proposed j ≡ true
      → (m : ℕ) → m < cfg.hostnum
      → is_on d.sm.current_liveset m ≡ true
      → (if m == cfg.my_index then is_on proposed j else is_on (d.hb.raw m).proposed_liveset j)
        ≡ true
  unfolding is_allowed
  is_allowed_elim proposed j h m lt on = ground (arith, all_hosts_elim cfg.hostnum _ h m lt)

  -- A larger proposal admits as much.
  Admitted-mono :
      {p q : HostMap} {j : ℕ}
      → ((i : ℕ) → is_on p i ≡ true → is_on q i ≡ true)
      → Admitted p j
      → Admitted q j
  Admitted-mono {j = j} sub a = record {
    is_new = a.is_new;
    other = a.other;
    heard = a.heard;
    agreed = a.agreed;
    acked = λ lt on. sub j (a.acked lt on);
  }

  -- The proposal after the round of host `k`, on a host's bit.
  join_step-proposed :
      (k : ℕ) (s : Joining) (j : ℕ)
      → (is_on s.proposed_liveset j ≡ true
          → is_on (join_step cfg d.var.join_block d.sm d.hb d.sf k s).proposed_liveset j ≡ true)
        × (d.var.join_block ≡ true
            → is_on (join_step cfg d.var.join_block d.sm d.hb d.sf k s).proposed_liveset j ≡ true
            → (is_on s.proposed_liveset j ≡ true) ⊎ (is_member cfg d.hb j ≡ true))
  unfolding join_step
  join_step-proposed k s j = (
    ground (arith, is_on-set s.proposed_liveset k j),
    ground (arith, is_on-set s.proposed_liveset k j),
  )

  -- The two ways in which the round of host `k` lets it in.
  abbrev Enters : HostMap → ℕ → Type 0
  Enters proposed k =
      (is_on d.sm.current_liveset k ≡ false)
      × (((is_requesting cfg d.hb k ≡ true) × (is_allowed cfg d.sm d.hb proposed k ≡ true))
          ⊎ ((is_member cfg d.hb k ≡ true) × (is_on proposed k ≡ true)))

  Enters-Admitted : {proposed : HostMap} {k : ℕ} → Enters proposed k → Admitted proposed k
  unfolding is_requesting is_member
  Enters-Admitted {proposed} {k} (new, way) = elim way [
    | inl (asks, allowed) ↦ record {
      is_new = new;
      other = ground arith;
      heard = ground arith;
      agreed = inr (λ m lt ne on. ground (arith, is_allowed_elim proposed k allowed m lt on));
      acked = λ lt on. ground (arith, is_allowed_elim proposed k allowed cfg.my_index lt on);
    }
    | inr (member, on) ↦ record {
      is_new = new;
      other = ground arith;
      heard = ground arith;
      agreed = inl (ground arith);
      acked = λ lt mine. on;
    }
  ]

  join_step-joining :
      (k : ℕ) (s : Joining) (j : ℕ)
      → is_on (join_step cfg d.var.join_block d.sm d.hb d.sf k s).joining_set j ≡ true
      → (is_on s.joining_set j ≡ true)
        ⊎ ((j ≡ k) × Enters (join_step cfg d.var.join_block d.sm d.hb d.sf k s).proposed_liveset k)
  unfolding join_step
  join_step-joining k s j on =
      ground (arith, on, is_on-set s.joining_set k j, is_on-set s.proposed_liveset k k)

  join_step-Looked :
      (k : ℕ) (s : Joining)
      → Looked k s
      → Looked (suc k) (join_step cfg d.var.join_block d.sm d.hb d.sf k s)
  join_step-Looked k s h = record {
    kept = λ j on. (join_step-proposed k s j).0 (h.kept j on);
    joined = λ j on. elim (join_step-joining k s j on) [
      | inl old ↦
          let (lt, a) = h.joined j old in
          (omega arith, Admitted-mono (λ i. (join_step-proposed k s i).0) a)
      | inr (at, enters) ↦ (omega arith, rw at (Enters-Admitted enters))
    ];
    blocked = λ b j on. elim ((join_step-proposed k s j).1 b on) [
      | inl old ↦ h.blocked b j old
      | inr member ↦ inr member
    ];
  }

  find_joining-Looked : Looked cfg.hostnum (find_joining cfg d)
  unfolding find_joining
  find_joining-Looked = elim (Bool-cases (is_empty_liveset cfg d.sm.current_liveset)) [
    | inl empty ↦ rw empty (start cfg.hostnum)
    | inr live ↦ rw live (
        for_hosts_inv Looked cfg.hostnum (join_step cfg d.var.join_block d.sm d.hb d.sf)
          none_joining (start 0) (λ k s lt h. join_step-Looked k s h))
  ]
    where
      none_joining : Joining
      none_joining = record { proposed_liveset = d.sm.proposed_liveset; joining_set = init_reset }

      start : (k : ℕ) → Looked k none_joining
      start k = record {
        kept = λ j on. on;
        joined = λ j on. absurd (ground (arith, is_on-init_reset j));
        blocked = λ b j on. inl on;
      }

  process_join_request-livesets :
      (j : ℕ)
      → (is_on (process_join_request cfg d).sm.current_liveset j
          ≡ (is_on d.sm.current_liveset j || is_on (find_joining cfg d).joining_set j))
        × ((process_join_request cfg d).sm.proposed_liveset ≡ (find_joining cfg d).proposed_liveset)
  unfolding process_join_request
  process_join_request-livesets j =
      ground (arith, is_on-union d.sm.current_liveset (find_joining cfg d).joining_set j)

  -- process_join_request removes no host from the liveset; a host that it adds is configured, is
  -- not this host, is on the heartbeat, and either says itself that it is a member or has the
  -- agreement of all other members; if this host is a member it has agreed as well.
  pub process_join_request_admits :
      (j : ℕ)
      → (is_on d.sm.current_liveset j ≡ true
          → is_on (process_join_request cfg d).sm.current_liveset j ≡ true)
        × (is_on (process_join_request cfg d).sm.current_liveset j ≡ true
            → is_on d.sm.current_liveset j ≡ false
            → (j < cfg.hostnum) × Admitted (process_join_request cfg d).sm.proposed_liveset j)
  process_join_request_admits j =
      let (now, prop) = process_join_request-livesets j in
      (
        λ on. ground (arith, now, on),
        λ on new. rw prop (find_joining-Looked.joined j (ground (arith, now, on, new))),
      )

  -- While this host is a member, process_join_request keeps the liveset inside the proposed one.
  pub process_join_request_keeps :
      cfg.my_index < cfg.hostnum
      → is_on d.sm.current_liveset cfg.my_index ≡ true
      → ((j : ℕ) → is_on d.sm.current_liveset j ≡ true → is_on d.sm.proposed_liveset j ≡ true)
      → (j : ℕ) → is_on (process_join_request cfg d).sm.current_liveset j ≡ true
      → is_on (process_join_request cfg d).sm.proposed_liveset j ≡ true
  process_join_request_keeps lt mine sub j on =
      let (now, prop) = process_join_request-livesets j in
      elim (Bool-cases (is_on d.sm.current_liveset j)) [
        | inl old ↦ rw prop (find_joining-Looked.kept j (sub j old))
        | inr new ↦ ((process_join_request_admits j).1 on new).1.acked lt mine
      ]

  -- While joins are blocked, a member lets in only hosts that it had agreed to before, and hosts
  -- that say that they are members.
  pub process_join_request_blocked :
      cfg.my_index < cfg.hostnum
      → is_on d.sm.current_liveset cfg.my_index ≡ true
      → d.var.join_block ≡ true
      → (j : ℕ) → is_on (process_join_request cfg d).sm.current_liveset j ≡ true
      → is_on d.sm.current_liveset j ≡ false
      → (is_on d.sm.proposed_liveset j ≡ true) ⊎ (is_on (d.hb.raw j).current_liveset j ≡ true)
  unfolding is_member
  process_join_request_blocked lt mine blocked j on new =
      let (now, prop) = process_join_request-livesets j in
      let proposed = ((process_join_request_admits j).1 on new).1.acked lt mine in
      elim (find_joining-Looked.blocked blocked j (rw (← prop) proposed)) [
        | inl before ↦ inl before
        | inr member ↦ inr (ground (arith, member))
      ]
