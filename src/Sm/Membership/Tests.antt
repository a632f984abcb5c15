-- ===== src/Sm/Membership/Tests.antt =====
-- What the tests of daemon/sm.c on whole livesets say of each host.
use xha.Prelude.{ℕ, ◌<◌, ◌≡◌, true, false, arith, ◌↔◌}
use xha.Prelude.Hosts.{all_hosts_elim, all_hosts_intro, all_hosts-false}
use xha.HostMap.{HostMap, is_on}
use xha.Config.{Config}
use xha.Sm.Membership.{is_all_hosts_up, is_empty_liveset}

module _ (cfg : Config) (m : HostMap) where
  pub is_all_hosts_up_iff :
      (is_all_hosts_up cfg m ≡ true) ↔ ((i : ℕ) → i < cfg.hostnum → is_on m i ≡ true)
  unfolding is_all_hosts_up
  is_all_hosts_up_iff =
      (all_hosts_elim cfg.hostnum (is_on m), all_hosts_intro cfg.hostnum (is_on m))

  pub is_all_hosts_up-false :
      is_all_hosts_up cfg m ≡ false → (i : ℕ) × (i < cfg.hostnum) × (is_on m i ≡ false)
  unfolding is_all_hosts_up
  is_all_hosts_up-false = all_hosts-false cfg.hostnum (is_on m)

  pub is_empty_liveset_elim :
      is_empty_liveset cfg m ≡ true → (i : ℕ) → i < cfg.hostnum → is_on m i ≡ false
  unfolding is_empty_liveset
  is_empty_liveset_elim h i lt = ground (arith, all_hosts_elim cfg.hostnum _ h i lt)

  pub is_empty_liveset-false :
      is_empty_liveset cfg m ≡ false → (i : ℕ) × (i < cfg.hostnum) × (is_on m i ≡ true)
  unfolding is_empty_liveset
  is_empty_liveset-false h =
      let (i, lt, on) = all_hosts-false cfg.hostnum _ h in (i, lt, ground arith)
