-- ===== src/HostWeight/RoundTrip.antt =====
-- A table that write_hostweight_file writes is read back by read_hostweight_file.
use xha.Prelude.{
  ℕ, zero, suc, ◌+◌, ◌*◌, ◌≤◌, ◌<◌, ◌≡◌, ◌≢◌, ◌∙◌, refl, ap, sym, true, false, List, [], ◌∷◌, ◌++◌,
  Option, some, none, if◌then◌else◌, arith, Bool-cases, inl, inr,
}
use xha.HostWeight.{
  Str, str_eq, Entry, Table, zero_table, empty_entry, max_host_weight_value,
  max_host_weight_classname_len, max_host_weight_class_num,
}
use xha.HostWeight.Text.{
  length, take, next_byte, split_lines, scan_line, scan_lines, scan_buffer, read_hostweight_file,
  write_hostweight_file, max_host_weight_file_size,
}
use xha.HostWeight.Table.{str_eq_iff}
use xha.HostWeight.Weight.{table_size}

-- A line has no byte that ends it.
unfoldable pub IsLine : Str → Type 0
IsLine [] = Unit
IsLine (c ∷ s) = (c ≢ 0) × (c ≢ 10) × IsLine s

-- A name that weightctl takes: at most 64 bytes, each printable and no space.
unfoldable pub IsGraph : Str → Type 0
IsGraph [] = Unit
IsGraph (c ∷ s) = (32 < c) × (c < 127) × IsGraph s

-- The names and weights that weightctl takes.
unfoldable pub IsWritable : Table → Type 0
IsWritable [] = Unit
IsWritable (e ∷ t) =
    (length e.classname < max_host_weight_classname_len)
    × IsGraph e.classname
    × (e.weight ≤ max_host_weight_value)
    × IsWritable t

-- The entries of a table that write_hostweight_file writes.
unfoldable pub named : Table → Table
named [] = []
named (e ∷ t) = if str_eq e.classname [] then named t else e ∷ named t

-- A table of a given size that begins with some entries.
unfoldable pub fill_up : ℕ → Table → Table
fill_up zero t = []
fill_up (suc size) [] = empty_entry ∷ fill_up size []
fill_up (suc size) (e ∷ t) = e ∷ fill_up size t

-- What C promises of the two formats: the line of a name and a weight ends with its only '\n', has
-- at most five digits, and is scanned back; an empty line is not scanned.
pub record IsFormat (sprintf : Str → ℕ → Str) (sscanf : Str → Option (Str × ℕ)) : Type 0 where
  pub body : Str → ℕ → Str
  pub prints : (n : Str) (w : ℕ) → sprintf n w ≡ body n w ++ 10 ∷ []
  pub line : (n : Str) (w : ℕ) → IsGraph n → IsLine (body n w)
  pub short : (n : Str) (w : ℕ) → w ≤ max_host_weight_value → length (body n w) ≤ length n + 6
  pub scans :
      (n : Str) (w : ℕ)
      → n ≢ []
      → IsGraph n
      → w ≤ max_host_weight_value
      → sscanf (body n w) ≡ some (n, w)
  pub scans_nothing : sscanf [] ≡ none

split_lines-line : (l s : Str) → IsLine l → split_lines (l ++ 10 ∷ s) ≡ l ∷ split_lines s
unfolding split_lines IsLine next_byte
split_lines-line [] s h = refl
split_lines-line (c ∷ l) s h = rw (split_lines-line l s h.2) (ground (arith, h.0, h.1))

++_assoc : (a b c : Str) → (a ++ b) ++ c ≡ a ++ (b ++ c)
++_assoc [] b c = refl
++_assoc (x ∷ a) b c = ap (λ r. x ∷ r) (++_assoc a b c)

length-++ : (a b : Str) → length (a ++ b) ≡ length a + length b
unfolding length
length-++ [] b = omega arith
length-++ (x ∷ a) b = omega (arith, length-++ a b)

take-length : (k : ℕ) (s : Str) → length s ≤ k → take k s ≡ s
unfolding length take
take-length zero [] h = refl
take-length zero (c ∷ s) h = absurd (omega arith)
take-length (suc k) [] h = refl
take-length (suc k) (c ∷ s) h = ap (λ r. c ∷ r) (take-length k s (omega arith))

fill_up_nothing : (size : ℕ) → fill_up size [] ≡ zero_table size
unfolding fill_up zero_table
fill_up_nothing zero = refl
fill_up_nothing (suc size) = ap (λ r. empty_entry ∷ r) (fill_up_nothing size)

module _ (bufsiz : ℕ) (room : 6 ≤ bufsiz) (sprintf : Str → ℕ → Str)
    (sscanf : Str → Option (Str × ℕ)) (format : IsFormat sprintf sscanf) where
  scan_line-body :
      (e : Entry)
      → e.classname ≢ []
      → length e.classname < max_host_weight_classname_len
      → IsGraph e.classname
      → e.weight ≤ max_host_weight_value
      → scan_line bufsiz sprintf sscanf (format.body e.classname e.weight) ≡ some e
  unfolding scan_line
  scan_line-body e given fits graph low = ground (
    arith,
    format.short e.classname e.weight low,
    format.scans e.classname e.weight given graph low,
  )

  write-cons :
      (e : Entry) (t : Table)
      → str_eq e.classname [] ≡ false
      → write_hostweight_file bufsiz sprintf sscanf (e ∷ t)
        ≡ format.body e.classname e.weight ++ 10 ∷ write_hostweight_file bufsiz sprintf sscanf t
  unfolding write_hostweight_file
  write-cons e t given =
      rw (given, format.prints e.classname e.weight)
        (++_assoc (format.body e.classname e.weight) (10 ∷ []) _)

  write-skip :
      (e : Entry) (t : Table)
      → str_eq e.classname [] ≡ true
      → write_hostweight_file bufsiz sprintf sscanf (e ∷ t)
        ≡ write_hostweight_file bufsiz sprintf sscanf t
  unfolding write_hostweight_file
  write-skip e t nameless = ground arith

  scan_nothing :
      (size : ℕ) → scan_lines bufsiz sprintf sscanf size (split_lines []) ≡ zero_table size
  unfolding scan_lines split_lines zero_table scan_line length
  scan_nothing zero = refl
  scan_nothing (suc size) = ground (arith, format.scans_nothing)

  write_nothing : write_hostweight_file bufsiz sprintf sscanf [] ≡ []
  unfolding write_hostweight_file
  write_nothing = refl

  scan_lines-cons :
      (size : ℕ) (l : Str) (ls : List Str) {e : Entry}
      → scan_line bufsiz sprintf sscanf l ≡ some e
      → scan_lines bufsiz sprintf sscanf (suc size) (l ∷ ls)
        ≡ e ∷ scan_lines bufsiz sprintf sscanf size ls
  unfolding scan_lines
  scan_lines-cons size l ls hit = ground arith

  scan_lines-write :
      (t : Table) (size : ℕ)
      → IsWritable t
      → table_size t ≤ size
      → scan_lines bufsiz sprintf sscanf size
          (split_lines (write_hostweight_file bufsiz sprintf sscanf t))
        ≡ fill_up size (named t)
  unfolding IsWritable table_size named fill_up
  scan_lines-write [] size h fits =
      rw write_nothing (scan_nothing size ∙ sym (fill_up_nothing size))
  scan_lines-write (e ∷ t) zero h fits = absurd (omega arith)
  scan_lines-write (e ∷ t) (suc size) h fits = elim (Bool-cases (str_eq e.classname [])) [
    | inl nameless ↦
        rw (write-skip e t nameless, nameless) (scan_lines-write t (suc size) h.3 (omega arith))
    | inr given ↦
        let lines =
          split_lines-line (format.body e.classname e.weight)
            (write_hostweight_file bufsiz sprintf sscanf t)
            (format.line e.classname e.weight h.1) in
        let is_named : e.classname ≢ [] = ground (arith, str_eq_iff e.classname []) in
        rw
          (
            write-cons e t given,
            lines,
            scan_lines-cons size (format.body e.classname e.weight)
                (split_lines (write_hostweight_file bufsiz sprintf sscanf t))
                (scan_line-body e is_named h.0 h.1 h.2),
            given,
          )
          (ap (λ r. e ∷ r) (scan_lines-write t size h.3 (omega arith)))
  ]

  -- What is written fits into the buffer of the reader.
  length-write :
      (t : Table)
      → IsWritable t
      → length (write_hostweight_file bufsiz sprintf sscanf t) ≤ table_size t * 71
  unfolding IsWritable table_size length write_hostweight_file
  length-write [] h = omega arith
  length-write (e ∷ t) h = elim (Bool-cases (str_eq e.classname [])) [
    | inl nameless ↦ rw (write-skip e t nameless) (omega (arith, length-write t h.3))
    | inr given ↦ rw (write-cons e t given) (
        omega (
          arith,
          length-++ (format.body e.classname e.weight)
              (10 ∷ write_hostweight_file bufsiz sprintf sscanf t),
          format.short e.classname e.weight h.2,
          length-write t h.3,
          h.0,
        ))
  ]

  scan_buffer_lem :
      (buf : Str) (size : ℕ)
      → scan_buffer bufsiz sprintf sscanf buf size
        ≡ scan_lines bufsiz sprintf sscanf size (split_lines buf)
  unfolding scan_buffer
  scan_buffer_lem [] size = sym (scan_nothing size)
  scan_buffer_lem (c ∷ s) size = refl

  read_scan :
      (file : Str) (size : ℕ)
      → length file ≤ max_host_weight_file_size bufsiz sprintf sscanf
      → read_hostweight_file bufsiz sprintf sscanf file size
        ≡ scan_lines bufsiz sprintf sscanf size (split_lines file)
  unfolding read_hostweight_file
  read_scan file size h =
      rw (sym (scan_buffer_lem file size))
        (ap (λ buf. scan_buffer bufsiz sprintf sscanf buf size) (take-length _ file h))

  pub read-write :
      (t : Table)
      → IsWritable t
      → table_size t ≤ max_host_weight_class_num
      → read_hostweight_file bufsiz sprintf sscanf
          (write_hostweight_file bufsiz sprintf sscanf t)
          (table_size t)
        ≡ fill_up (table_size t) (named t)
  read-write t h small =
      read_scan (write_hostweight_file bufsiz sprintf sscanf t) (table_size t)
        (omega (arith, length-write t h))
      ∙ scan_lines-write t (table_size t) h (omega arith)
