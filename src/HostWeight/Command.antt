-- ===== src/HostWeight/Command.antt =====
-- weight_set of commands/weightctl.c. The file is the list of its bytes; what the kernel answers to
-- the open, the read and the write is an argument, and isgraph of libc a parameter.
use xha.Prelude.{ℕ, ◌-◌, Bool, true, not, ◌||◌, ◌&&◌, ltb, if◌then◌else◌, [], ◌∷◌, Option}
use xha.Data.{Status, success, error_weight_table_full}
use xha.Sm.Start.{is_success}
use xha.HostWeight.{
  Str, str_eq, Table, set_hostweight_table, max_host_weight_value, max_host_weight_classname_len,
  max_host_weight_class_num,
}
use xha.HostWeight.Text.{length, take, read_hostweight_file, write_hostweight_file}

-- The exit codes of the command.
pub data Exit : Type 0 where
  exit_success exit_invalid_parameter exit_system_error : Exit

-- status_to_exit on the statuses of the weight file.
abbrev pub status_to_exit : Status → Exit
status_to_exit success = exit_success
status_to_exit error_weight_table_full = exit_invalid_parameter
status_to_exit _ = exit_system_error

-- "native"
abbrev pub builtin_host_weight_classname : Str
builtin_host_weight_classname = 110 ∷ 97 ∷ 116 ∷ 105 ∷ 118 ∷ 101 ∷ []

-- What the kernel answers to the three operations on the file, and what a failed write leaves.
pub record FileStatus : Type 0 where
  pub opened : Status
  pub read : Status
  pub written : Status
  pub left : Str

module _ (bufsiz : ℕ) (sprintf : Str → ℕ → Str) (sscanf : Str → Option (Str × ℕ))
    (isgraph : ℕ → Bool) where
  unfoldable pub all_graph : Str → Bool
  all_graph [] = true
  all_graph (c ∷ s) = isgraph c && all_graph s

  unfoldable pub truncate : Str → Str
  truncate classname =
      if not (ltb (length classname) max_host_weight_classname_len)
      then take (max_host_weight_classname_len - 1) classname
      else classname

  -- From the update of the table on.
  unfoldable pub finish_set : FileStatus → Str → Status × Table → Exit × Str
  finish_set io file (success, t) = (
    status_to_exit io.written,
    if is_success io.written then write_hostweight_file bufsiz sprintf sscanf t else io.left,
  )
  finish_set io file (rs, t) = (status_to_exit rs, file)

  -- From the open on.
  unfoldable pub set_in_file : FileStatus → Str → Str → ℕ → Exit × Str
  unfolding finish_set
  set_in_file io file cname weight =
      let table = read_hostweight_file bufsiz sprintf sscanf file max_host_weight_class_num in
      let finished = finish_set io file (set_hostweight_table table cname weight) in
      if not (is_success io.opened)
      then (status_to_exit io.opened, file)
      else if not (is_success io.read)
      then (status_to_exit io.read, file)
      else finished

  -- The exit code and the file that is left.
  unfoldable pub weight_set : FileStatus → Str → Str → ℕ → Exit × Str
  unfolding all_graph truncate set_in_file
  weight_set io file classname weight =
      if ltb max_host_weight_value weight
        || str_eq classname builtin_host_weight_classname
        || not (all_graph classname)
      then (exit_invalid_parameter, file)
      else set_in_file io file (truncate classname) weight
