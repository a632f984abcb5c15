-- ===== src/HostWeight/Text.antt =====
-- The weight file, for read_hostweight_file and write_hostweight_file of lib/weightio.c. The libc
-- functions sprintf, with the format "%s %d\n", and sscanf, with "%s %d", and the size BUFSIZ are
-- parameters; a file is the list of its bytes, and the calls of the kernel are taken to succeed.
use xha.Prelude.{
  ℕ, zero, suc, ◌+◌, ◌*◌, List, [], ◌∷◌, ◌++◌, Option, none, some, ◌==◌, ltb, if◌then◌else◌,
}
use xha.HostWeight.{
  Str, str_eq, Entry, Table, zero_table, max_host_weight_classname_len, max_host_weight_class_num,
}

-- strlen
unfoldable pub length : Str → ℕ
length [] = 0
length (c ∷ s) = suc (length s)

unfoldable pub take : ℕ → Str → Str
take zero s = []
take (suc n) [] = []
take (suc n) (c ∷ s) = c ∷ take n s

-- The lines that strchr finds in the buffer: each ends at '\n', the last at the NUL.
unfoldable pub next_byte : ℕ → List Str → List Str
next_byte c [] = (c ∷ []) ∷ []
next_byte c (l ∷ ls) = (c ∷ l) ∷ ls

unfoldable pub split_lines : Str → List Str
split_lines [] = [] ∷ []
split_lines (c ∷ s) =
    let rest = split_lines s in
    if c == 0 then [] ∷ [] else if c == 10 then [] ∷ rest else next_byte c rest

module _ (bufsiz : ℕ) (sprintf : Str → ℕ → Str) (sscanf : Str → Option (Str × ℕ)) where
  abbrev pub max_host_weight_file_linelen : ℕ
  max_host_weight_file_linelen = max_host_weight_classname_len + bufsiz

  abbrev pub max_host_weight_file_size : ℕ
  max_host_weight_file_size = max_host_weight_class_num * max_host_weight_file_linelen

  -- What a line gives for the table, if it is not skipped.
  unfoldable pub scan_line : Str → Option Entry
  scan_line l =
      if ltb (length l) max_host_weight_file_linelen
      then elim (sscanf l) [
        | some (n, w) ↦
            if ltb (length n) max_host_weight_classname_len
            then some (record { classname = n; weight = w })
            else none
        | none ↦ none
      ]
      else none

  -- The entries from the one at `index`; `size` of them are left.
  unfoldable pub scan_lines : ℕ → List Str → Table
  scan_lines zero ls = []
  scan_lines (suc size) [] = zero_table (suc size)
  scan_lines (suc size) (l ∷ ls) = elim (scan_line l) [
    | some e ↦ e ∷ scan_lines size ls
    | none ↦ scan_lines (suc size) ls
  ]

  -- The table that the buffer gives, which is left zero when there is no data.
  unfoldable pub scan_buffer : Str → ℕ → Table
  scan_buffer [] size = zero_table size
  scan_buffer (c ∷ s) size = scan_lines size (split_lines (c ∷ s))

  -- The table that read_hostweight_file reads from a file.
  unfoldable pub read_hostweight_file : Str → ℕ → Table
  read_hostweight_file file size = scan_buffer (take max_host_weight_file_size file) size

  -- The file that write_hostweight_file leaves.
  unfoldable pub write_hostweight_file : Table → Str
  write_hostweight_file [] = []
  write_hostweight_file (e ∷ t) =
      if str_eq e.classname []
      then write_hostweight_file t
      else sprintf e.classname e.weight ++ write_hostweight_file t
