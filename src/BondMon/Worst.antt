-- ===== src/BondMon/Worst.antt =====
-- What check_bonding_status of daemon/bond_mon.c reports, and what query_liveset makes of it.
use xha.Prelude.{◌≡◌, refl, Bool, true, false, not, ◌&&◌, List, [], ◌∷◌, some, Bool-cases, inl, inr}
use xha.HostWeight.{Str, str_eq}
use xha.BondMon.{
  status_err, status_degraded, status_noerr, Line, mii_status, slave_interface, other_line,
  scan_status_lines, check_bonding_status, bm_turn, bonding_error,
}

-- Whether every line that tells the state of an interface says up.
unfoldable pub all_up : List Line → Bool
all_up [] = true
all_up (mii_status up ∷ lines) = up && all_up lines
all_up (slave_interface name ∷ lines) = all_up lines
all_up (other_line ∷ lines) = all_up lines

module _ (hb_pif : Str) where
  -- Once some interface was seen down, no later line changes the result.
  scan_status_lines_err :
      (device : Str) (lines : List Line)
      → scan_status_lines hb_pif device status_err lines ≡ status_err
  unfolding scan_status_lines
  scan_status_lines_err device [] = refl
  scan_status_lines_err device (mii_status true ∷ lines) = scan_status_lines_err device lines
  scan_status_lines_err device (mii_status false ∷ lines) = scan_status_lines_err device lines
  scan_status_lines_err device (slave_interface name ∷ lines) = scan_status_lines_err name lines
  scan_status_lines_err device (other_line ∷ lines) = scan_status_lines_err device lines

  scan_status_lines_degraded :
      (device : Str) (lines : List Line)
      → scan_status_lines hb_pif device status_degraded lines ≡ status_degraded
  unfolding scan_status_lines
  scan_status_lines_degraded device [] = refl
  scan_status_lines_degraded device (mii_status true ∷ lines) =
      scan_status_lines_degraded device lines
  scan_status_lines_degraded device (mii_status false ∷ lines) =
      scan_status_lines_degraded device lines
  scan_status_lines_degraded device (slave_interface name ∷ lines) =
      scan_status_lines_degraded name lines
  scan_status_lines_degraded device (other_line ∷ lines) = scan_status_lines_degraded device lines

  scan_status_lines_lem :
      (device : Str) (lines : List Line)
      → bonding_error (bm_turn (scan_status_lines hb_pif device status_noerr lines)).0
        ≡ not (all_up lines)
  unfolding scan_status_lines all_up bm_turn
  scan_status_lines_lem device [] = refl
  scan_status_lines_lem device (mii_status true ∷ lines) = scan_status_lines_lem device lines
  scan_status_lines_lem device (mii_status false ∷ lines) =
      elim (Bool-cases (str_eq device hb_pif)) [
        | inl bond ↦ rw (bond, scan_status_lines_err device lines) refl
        | inr slave ↦ rw (slave, scan_status_lines_degraded device lines) refl
      ]
  scan_status_lines_lem device (slave_interface name ∷ lines) = scan_status_lines_lem name lines
  scan_status_lines_lem device (other_line ∷ lines) = scan_status_lines_lem device lines

  -- When the bond of the heartbeat's interface has a status file, what a turn of the bond monitor
  -- puts into its object is an error for query_liveset exactly if some interface of the bond is not
  -- up.
  pub bonding_error-bm_turn :
      (lines : List Line)
      → str_eq hb_pif [] ≡ false
      → bonding_error (bm_turn (check_bonding_status hb_pif (some lines))).0 ≡ not (all_up lines)
  unfolding check_bonding_status
  bonding_error-bm_turn lines configured = rw configured (scan_status_lines_lem hb_pif lines)
