-- ===== src/BondMon.antt =====
-- The bond monitor of daemon/bond_mon.c: what the kernel's status file of the bond says of its
-- lines, and a turn of the monitor's thread. The fault injection is off.
pub mod Worst
use xha.Prelude.{
  ℕ, zero, suc, Bool, true, false, not, List, [], ◌∷◌, Option, none, some, if◌then◌else◌,
}
use xha.HostWeight.{Str, str_eq}

-- MTC_BOND_STATUS
pub data BondStatus : Type 0 where
  status_nobond status_err status_degraded status_noerr : BondStatus

-- COM_DATA_BM
pub record ComBm : Type 0 where
  pub status : Bool
  pub mtc_bond_status : BondStatus

-- What a line of the file, less its end, is, as strncasecmp and strcasestr find it: the state of an
-- interface with whether it is up, the name of the next interface, or another line.
pub data Line : Type 0 where
  mii_status : Bool → Line
  slave_interface : Str → Line
  other_line : Line

abbrev is_noerr : BondStatus → Bool
is_noerr status_noerr = true
is_noerr _ = false

abbrev is_err_or_degraded : BondStatus → Bool
is_err_or_degraded status_err = true
is_err_or_degraded status_degraded = true
is_err_or_degraded _ = false

module _ (hb_pif : Str) where
  -- A line that says that the interface `device` is not up.
  abbrev pub note_down : Str → BondStatus → BondStatus
  note_down device ret =
      if not (is_err_or_degraded ret)
      then if str_eq device hb_pif then status_err else status_degraded
      else ret

  -- The loop over the lines of the file.
  unfoldable pub scan_status_lines : Str → BondStatus → List Line → BondStatus
  scan_status_lines device ret [] = ret
  scan_status_lines device ret (mii_status up ∷ lines) =
      scan_status_lines device (if up then ret else note_down device ret) lines
  scan_status_lines device ret (slave_interface name ∷ lines) = scan_status_lines name ret lines
  scan_status_lines device ret (other_line ∷ lines) = scan_status_lines device ret lines

  abbrev scan_file : Option (List Line) → BondStatus
  scan_file none = status_nobond
  scan_file (some lines) = scan_status_lines hb_pif status_noerr lines

  -- check_bonding_status, where the file has these lines or does not open.
  unfoldable pub check_bonding_status : Option (List Line) → BondStatus
  unfolding scan_status_lines
  check_bonding_status file = if str_eq hb_pif [] then status_nobond else scan_file file

-- What a turn of bm puts into the object, and whether the thread ends.
unfoldable pub bm_turn : BondStatus → ComBm × Bool
bm_turn status_nobond = (record { status = false; mtc_bond_status = status_nobond }, true)
bm_turn status_noerr = (record { status = false; mtc_bond_status = status_noerr }, false)
bm_turn status_degraded = (record { status = true; mtc_bond_status = status_degraded }, false)
bm_turn status_err = (record { status = true; mtc_bond_status = status_err }, false)

-- Whether query_liveset reports an error of the bond.
abbrev pub bonding_error : ComBm → Bool
bonding_error bm = is_err_or_degraded bm.mtc_bond_status
