-- ===== src/Sm/Domain/Update.antt =====
-- What update_sfdomain of daemon/sm.c leaves in the state-file domain, and when it reports a
-- change.
use xha.Prelude.{
  ℕ, suc, ◌<◌, ◌≡◌, refl, Bool, true, false, not, ◌&&◌, ◌||◌, ◌==◌, ltb, if◌then◌else◌, arith,
  Bool-cases, inl, inr, ◌⊎◌, ltb_iff,
}
use xha.Prelude.Hosts.{for_hosts, for_hosts_inv, all_hosts, all_hosts_elim}
use xha.Prelude.Int.{ℤ}
use xha.HostMap.{is_on}
use xha.HostMap.Laws.{is_on-set, is_on-reset}
use xha.Config.{Config}
use xha.Data.{ComSf, Daemon}
use xha.Sm.Domain.{Scan, is_recent, scan_step, update_sfdomain_sub, update_sfdomain}

abbrev pub bool_eq : Bool → Bool → Bool
bool_eq true b = b
bool_eq false b = not b

module _ (cfg : Config) (now : ℤ) (join_block : Bool) (psf : ComSf) where
  -- A host is alive if its record changed within the timeout and, for this host, writing is
  -- enabled.
  abbrev pub is_alive : ℕ → Bool
  is_alive j = not (j == cfg.my_index && not psf.enable_sf_write) && is_recent cfg now psf j

  -- A host that is alive stays in the domain, or enters it while joining is not blocked.
  abbrev pub expected : ℕ → Bool
  expected j = is_alive j && (is_on psf.sfdomain j || not join_block)

  abbrev pub unchanged : ℕ → Bool
  unchanged j = bool_eq (expected j) (is_on psf.sfdomain j)

  record Scanned (writable : Bool) (k : ℕ) (s : Scan) : Type 0 where
    timed : s.psf.time_last_sf ≡ psf.time_last_sf
    enabled : s.psf.enable_sf_write ≡ psf.enable_sf_write
    domain :
        (j : ℕ)
        → is_on s.psf.sfdomain j
          ≡ (if writable && ltb j k then expected j else is_on psf.sfdomain j)
    reported : s.changed ≡ not (all_hosts k unchanged)

  is_recent-Scanned :
      {writable : Bool} {k : ℕ} {s : Scan}
      → Scanned writable k s
      → (j : ℕ) → is_recent cfg now s.psf j ≡ is_recent cfg now psf j
  unfolding is_recent
  is_recent-Scanned h j = rw h.timed

  scan_step-Scanned :
      (writable : Bool) (k : ℕ) (s : Scan)
      → Scanned writable k s
      → Scanned writable (suc k) (scan_step cfg now join_block writable k s)
  unfolding scan_step all_hosts
  scan_step-Scanned writable k s h = record {
    timed = ground (arith, h.timed);
    enabled = ground (arith, h.enabled);
    domain = λ j. ground (
      arith,
      h.domain j,
      h.domain k,
      is_recent-Scanned h k,
      h.enabled,
      is_on-set s.psf.sfdomain k j,
      is_on-reset s.psf.sfdomain k j,
    );
    reported = ground (arith, h.reported, h.domain k, is_recent-Scanned h k, h.enabled);
  }

module _ (cfg : Config) (now : ℤ) (join_block : Bool) (psf : ComSf) where
  -- The scan reports a change exactly when some configured host is not as it should be; it corrects
  -- the domain if it may write, and leaves it alone if it may not.
  update_sfdomain_sub_lem :
      (hostmap : ℕ → ℕ) (writable : Bool)
      → Scanned cfg now join_block psf writable cfg.hostnum
          (update_sfdomain_sub cfg now join_block hostmap writable psf)
  unfolding update_sfdomain_sub all_hosts
  update_sfdomain_sub_lem hostmap writable = record {
    timed = done.timed;
    enabled = done.enabled;
    domain = done.domain;
    reported = done.reported;
  }
    where
      none_seen : Scan
      none_seen = record { psf = psf; hostmap = hostmap; changed = false }

      done :
          Scanned cfg now join_block psf writable cfg.hostnum
            (for_hosts cfg.hostnum (scan_step cfg now join_block writable) none_seen)
      done =
          for_hosts_inv (Scanned cfg now join_block psf writable) cfg.hostnum
            (scan_step cfg now join_block writable) none_seen
            (record { timed = refl; enabled = refl; domain = λ j. ground arith; reported = refl })
            (λ k s lt h. scan_step-Scanned cfg now join_block psf writable k s h)

module _ (cfg : Config) (now : ℤ) (d : Daemon) where
  abbrev after : Daemon
  after = (update_sfdomain cfg now d).1

  abbrev calm : ℕ → Bool
  calm = unchanged cfg now d.var.join_block d.sf

  calm-expected :
      all_hosts cfg.hostnum calm ≡ true
      → (j : ℕ) → j < cfg.hostnum
      → is_on d.sf.sfdomain j ≡ expected cfg now d.var.join_block d.sf j
  calm-expected h j lt = ground (arith, all_hosts_elim cfg.hostnum calm h j lt)

  -- update_sfdomain makes the domain of the configured hosts what their last updates within T2, in
  -- milliseconds of 32 bits, call for,
  -- leaves other hosts alone, and returns TRUE exactly when a configured host had to be changed.
  pub update_sfdomain_lem :
      ((update_sfdomain cfg now d).0
        ≡ not (all_hosts cfg.hostnum (unchanged cfg now d.var.join_block d.sf)))
      × ((j : ℕ)
          → is_on (update_sfdomain cfg now d).1.sf.sfdomain j ≡ (
              if ltb j cfg.hostnum
              then expected cfg now d.var.join_block d.sf j
              else is_on d.sf.sfdomain j))
  unfolding update_sfdomain
  update_sfdomain_lem = (
    ground (arith, look.reported, wet.reported),
    λ j. ground (arith, look.reported, wet.domain j, calm_at j),
  )
    where
      look :
          Scanned cfg now d.var.join_block d.sf false cfg.hostnum
            (update_sfdomain_sub cfg now d.var.join_block (λ i. 0) false d.sf)
      look = update_sfdomain_sub_lem cfg now d.var.join_block d.sf (λ i. 0) false

      seen : ℕ → ℕ
      seen = (update_sfdomain_sub cfg now d.var.join_block (λ i. 0) false d.sf).hostmap

      wet :
          Scanned cfg now d.var.join_block d.sf true cfg.hostnum
            (update_sfdomain_sub cfg now d.var.join_block seen true d.sf)
      wet = update_sfdomain_sub_lem cfg now d.var.join_block d.sf seen true

      calm_at :
          (j : ℕ)
          → (all_hosts cfg.hostnum calm ≡ false)
            ⊎ (ltb j cfg.hostnum ≡ false)
            ⊎ (is_on d.sf.sfdomain j ≡ expected cfg now d.var.join_block d.sf j)
      calm_at j = elim (Bool-cases (all_hosts cfg.hostnum calm)) [
        | inr stirred ↦ inl stirred
        | inl h ↦ elim (Bool-cases (ltb j cfg.hostnum)) [
          | inr outside ↦ inr (inl outside)
          | inl inside ↦ inr (inr (calm-expected h j ((ltb_iff j cfg.hostnum).0 inside)))
        ]
      ]
