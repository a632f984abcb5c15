-- ===== src/StateFile/Checksum.antt =====
-- What the checks of lib/statefileio.c accept and refuse.
use xha.Prelude.{
  ℕ, zero, suc, ◌+◌, ◌-◌, ◌%◌, ◌^◌, ◌≤◌, ◌<◌, ◌≡◌, ◌≢◌, refl, sym, ap, ◌∙◌, true, false, not, ◌||◌,
  ◌==◌, List, [], ◌∷◌, ◌++◌, Option, none, some, arith, ==_self, ==_iff, if-elim, Bool-cases, inl,
  inr,
}
use xha.HostWeight.{Str}
use xha.Data.{Status, success, error_sf_corruption}
use xha.StateFile.{GlobalSection, HostSection, Layout}
use xha.StateFile.Io.{
  add_words, sf_checksum, read_loop, check_global, sf_readglobal, check_host, sf_readhostspecific,
  sf_writeglobal, sf_writehostspecific,
}

-- A changed word changes every sum that it enters.
add_words_inj :
    (ws : List ℕ) (a b : ℕ) → a < 2 ^ 32 → b < 2 ^ 32 → add_words a ws ≡ add_words b ws → a ≡ b
unfolding add_words
add_words_inj [] a b ha hb e = e
add_words_inj (w ∷ ws) a b ha hb e =
    let rest : (a + w) % 2 ^ 32 ≡ (b + w) % 2 ^ 32 =
      add_words_inj ws ((a + w) % 2 ^ 32) ((b + w) % 2 ^ 32) (omega arith) (omega arith) e in
    omega arith

sf_checksum_word :
    (pre post : List ℕ) (acc v w : ℕ)
    → acc < 2 ^ 32
    → v < 2 ^ 32
    → w < 2 ^ 32
    → add_words acc (pre ++ v ∷ post) ≡ add_words acc (pre ++ w ∷ post)
    → v ≡ w
unfolding add_words
sf_checksum_word [] post acc v w ha hv hw e =
    let sums : (acc + v) % 2 ^ 32 ≡ (acc + w) % 2 ^ 32 =
      add_words_inj post ((acc + v) % 2 ^ 32) ((acc + w) % 2 ^ 32) (omega arith) (omega arith) e in
    omega arith
sf_checksum_word (u ∷ pre) post acc v w ha hv hw e =
    sf_checksum_word pre post ((acc + u) % 2 ^ 32) v w (omega arith) hv hw e

module _ (lay : Layout) where
  -- What is written is read back: the global section as long as the UUID expected is its own, a
  -- host's element always. The data are those that were written, but for the version, the lengths
  -- and the number of hosts that sf_writeglobal sets itself.
  pub read-write :
      (g old_g : GlobalSection) (h old_h : HostSection) (uuid : Str)
      → lay.same_uuid g.contents.gen_uuid uuid ≡ true
      → (sf_readglobal lay (some (sf_writeglobal lay g)) (some uuid) old_g
          ≡ (success, sf_writeglobal lay g))
        × ((sf_writeglobal lay g).contents.gen_uuid ≡ g.contents.gen_uuid)
        × ((sf_writeglobal lay g).contents.pool_state ≡ g.contents.pool_state)
        × ((sf_writeglobal lay g).contents.master ≡ g.contents.master)
        × ((sf_writeglobal lay g).contents.config_hosts ≡ g.contents.config_hosts)
        × (sf_readhostspecific lay (some (sf_writehostspecific lay h)) old_h
            ≡ (success, sf_writehostspecific lay h))
        × ((sf_writehostspecific lay h).contents ≡ h.contents)
  unfolding sf_readglobal sf_readhostspecific sf_writeglobal sf_writehostspecific check_global
      check_host
  read-write g old_g h old_h uuid own = (
    rw
        (
          ==_self lay.sig_sf_global,
          ==_self (lay.sf_create_inverted_sig lay.sig_sf_global),
          ==_self (sf_checksum (lay.global_words (sf_writeglobal lay g).contents)),
          own,
        )
        refl,
    refl,
    refl,
    refl,
    refl,
    rw
        (
          ==_self lay.sig_sf_host,
          ==_self (lay.sf_create_inverted_sig lay.sig_sf_host),
          ==_self (sf_checksum (lay.host_words h.contents)),
        )
        refl,
    refl,
  )

  -- When an element was written, and one of the words under its checksum, and not the checksum nor
  -- another of these words, has changed on the disk, its next read is refused as corrupted.
  pub sf_readhostspecific_corrupted :
      (h read old : HostSection) (pre post : List ℕ) (v w : ℕ)
      → lay.host_words (sf_writehostspecific lay h).contents ≡ pre ++ v ∷ post
      → lay.host_words read.contents ≡ pre ++ w ∷ post
      → read.checksum ≡ (sf_writehostspecific lay h).checksum
      → v < 2 ^ 32
      → w < 2 ^ 32
      → v ≢ w
      → (sf_readhostspecific lay (some read) old).0 ≡ error_sf_corruption
  unfolding sf_readhostspecific sf_writehostspecific check_host sf_checksum
  sf_readhostspecific_corrupted h read old pre post v w was now kept hv hw changed =
      let differ : (add_words 0 (lay.host_words read.contents) == read.checksum) ≡ false =
        elim (Bool-cases (add_words 0 (lay.host_words read.contents) == read.checksum)) [
          | inr bad ↦ bad
          | inl good ↦
              let equal : add_words 0 (lay.host_words read.contents) ≡ read.checksum =
                (==_iff (add_words 0 (lay.host_words read.contents)) read.checksum).0 good in
              let sums : add_words 0 (pre ++ v ∷ post) ≡ add_words 0 (pre ++ w ∷ post) =
                sym (ap (add_words 0) was) ∙ sym kept ∙ sym equal ∙ ap (add_words 0) now in
              absurd (changed (sf_checksum_word pre post 0 v w (omega arith) hv hw sums))
        ] in
      rw differ (
        if-elim (λ (status : Status). status ≡ error_sf_corruption)
          (not (read.sig == lay.sig_sf_host)
            || not (read.sig_inv == lay.sf_create_inverted_sig lay.sig_sf_host))
          (λ wrong. refl) (λ right. refl))

-- Reads that each give at least one byte.
unfoldable pub IsProgress : ℕ → List (Option ℕ) → Type 0
IsProgress zero results = Unit
IsProgress (suc count) [] = ⊥
IsProgress (suc count) (none ∷ results) = ⊥
IsProgress (suc count) (some n ∷ results) = (1 ≤ n) × IsProgress count results

-- Reads that give nothing, as at the end of the file.
unfoldable pub nothing_read : ℕ → List (Option ℕ)
nothing_read zero = []
nothing_read (suc count) = some 0 ∷ nothing_read count

read_loop_ends :
    (length count : ℕ) (results : List (Option ℕ))
    → length ≤ count
    → IsProgress count results
    → read_loop length results ≡ some success
unfolding read_loop IsProgress
read_loop_ends zero count results h p = refl
read_loop_ends (suc length) zero results h p = absurd (omega arith)
read_loop_ends (suc length) (suc count) [] h p = absurd p
read_loop_ends (suc length) (suc count) (none ∷ results) h p = absurd p
read_loop_ends (suc length) (suc count) (some n ∷ results) h p =
    read_loop_ends (suc length - n) count results (omega (arith, p.0)) p.1

read_loop_nothing :
    (length : ℕ) (results : List (Option ℕ))
    → read_loop (suc length) (some 0 ∷ results) ≡ read_loop (suc length) results
unfolding read_loop
read_loop_nothing length results = ap (λ left. read_loop left results) minus_zero
  where
    minus_zero : suc length - 0 ≡ suc length
    minus_zero = omega arith

read_loop_hangs : (length count : ℕ) → read_loop (suc length) (nothing_read count) ≡ none
unfolding nothing_read read_loop
read_loop_hangs length zero = refl
read_loop_hangs length (suc count) =
    read_loop_nothing length (nothing_read count) ∙ read_loop_hangs length count

-- sf_read succeeds after at most as many reads as bytes are asked for, if each gives at least one
-- byte; while reads give none, as at the end of the file, it never returns.
pub read_loop_lem :
    (length : ℕ) (results : List (Option ℕ))
    → IsProgress length results
    → (read_loop length results ≡ some success)
      × ((count : ℕ) → read_loop (suc length) (nothing_read count) ≡ none)
read_loop_lem length results p =
    (read_loop_ends length length results (omega arith) p, read_loop_hangs length)
