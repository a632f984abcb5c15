-- ===== src/StateFile/Io.antt =====
-- The sections on the disk, as lib/statefileio.c reads, checks and writes them. What sf_read gives
-- is an argument: the section, or nothing if the access failed.
use xha.Prelude.{
  ℕ, zero, suc, ◌+◌, ◌-◌, ◌%◌, ◌^◌, not, ◌||◌, ◌==◌, if◌then◌else◌, List, [], ◌∷◌, Option, none,
  some,
}
use xha.HostWeight.{Str}
use xha.Data.{
  Status, success, error_sf_io_error, error_sf_corruption, error_sf_version_mismatch,
  error_sf_gen_uuid,
}
use xha.StateFile.{GlobalSection, HostSection, Layout}

abbrev pub sf_version : ℕ
sf_version = 2

abbrev pub length_global : ℕ
length_global = 4096

abbrev pub length_host_specific : ℕ
length_host_specific = 4096

-- The loop of sf_checksum, which adds words of 32 bits.
unfoldable pub add_words : ℕ → List ℕ → ℕ
add_words sum [] = sum
add_words sum (w ∷ ws) = add_words ((sum + w) % 2 ^ 32) ws

unfoldable pub sf_checksum : List ℕ → ℕ
sf_checksum ws = add_words 0 ws

-- What one call of read() returns, a number of bytes, or an error.
unfoldable pub read_loop : ℕ → List (Option ℕ) → Option Status
read_loop zero results = some success
read_loop (suc length) [] = none
read_loop (suc length) (none ∷ results) = some error_sf_io_error
read_loop (suc length) (some n ∷ results) = read_loop (suc length - n) results

module _ (lay : Layout) where
  -- The checks of sf_readglobal.
  unfoldable pub check_global : Option Str → GlobalSection → Status
  check_global expected g =
      if not (g.sig == lay.sig_sf_global)
        || not (g.sig_inv == lay.sf_create_inverted_sig lay.sig_sf_global)
      then error_sf_corruption
      else if not (sf_checksum (lay.global_words g.contents) == g.checksum)
      then error_sf_corruption
      else if not (g.contents.version == sf_version)
      then error_sf_version_mismatch
      else elim expected [
        | some uuid ↦
            if not (lay.same_uuid g.contents.gen_uuid uuid) then error_sf_gen_uuid else success
        | none ↦ success
      ]

  -- The status, and what then is in the buffer.
  unfoldable pub sf_readglobal :
      Option GlobalSection → Option Str → GlobalSection → Status × GlobalSection
  unfolding check_global
  sf_readglobal none expected old = (error_sf_io_error, old)
  sf_readglobal (some g) expected old = (check_global expected g, g)

  unfoldable pub check_host : HostSection → Status
  check_host h =
      if not (h.sig == lay.sig_sf_host)
        || not (h.sig_inv == lay.sf_create_inverted_sig lay.sig_sf_host)
      then error_sf_corruption
      else if not (sf_checksum (lay.host_words h.contents) == h.checksum)
      then error_sf_corruption
      else success

  unfoldable pub sf_readhostspecific : Option HostSection → HostSection → Status × HostSection
  unfolding check_host
  sf_readhostspecific none old = (error_sf_io_error, old)
  sf_readhostspecific (some h) old = (check_host h, h)

  -- The section that sf_writeglobal hands to sf_write.
  unfoldable pub sf_writeglobal : GlobalSection → GlobalSection
  sf_writeglobal g =
      let filled = record (g.contents) {
        version = sf_version;
        length_global = length_global;
        length_host_specific = length_host_specific;
        max_hosts = 64;
      } in
      record {
        sig = lay.sig_sf_global;
        sig_inv = lay.sf_create_inverted_sig lay.sig_sf_global;
        checksum = sf_checksum (lay.global_words filled);
        contents = filled;
        end_marker = lay.sig_end_marker_global;
      }

  unfoldable pub sf_writehostspecific : HostSection → HostSection
  sf_writehostspecific h = record {
    sig = lay.sig_sf_host;
    sig_inv = lay.sf_create_inverted_sig lay.sig_sf_host;
    checksum = sf_checksum (lay.host_words h.contents);
    contents = h.contents;
    end_marker = lay.sig_end_marker_host;
  }
