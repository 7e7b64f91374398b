-- ===== src/Gc/Check/Decides.antt =====
-- The check of an archive ends, and a narinfo that the cache wrote passes it.
use spongix.Base.{
  ℕ, zero, suc, ◌+◌, ◌<◌, ◌^◌, ◌≡◌, ◌≢◌, refl, arith, Bool, true, false, codes, Bytes, length,
}
use spongix.Strings.{equal, ext}
use spongix.Desync.{Desync, Index, Pieces}
use spongix.Narinfo.{Narinfo}
use spongix.Narinfo.Marshal.{marshal}
use spongix.Narinfo.RoundTrip.{IsWritable}
use spongix.Assembler.Narinfos.{assembled, assemble_narinfo-marshal}
use spongix.Gc.Check.{
  NarReader, NarCheck, entry, end_of_file, bad_archive, NextHeader, unfinished, read_entries, after,
  check_nar_contents, check_fails,
}

module _ (nr : NarReader) where
  after-ne-unfinished :
      (rest : nr.Reader → NarCheck) (none_seen : Bool) (r : nr.Reader) (p : nr.Reader × NextHeader)
      → nr.next r ≡ p
      → ((r' : nr.Reader) → nr.left r' < nr.left r → rest r' ≢ unfinished)
      → after nr rest none_seen p ≢ unfinished
  after-ne-unfinished rest none_seen r (r', entry) e ih = ih r' (nr.takes r r' e)
  after-ne-unfinished rest true r (r', end_of_file) e ih = λ q. cc
  after-ne-unfinished rest false r (r', end_of_file) e ih = λ q. cc
  after-ne-unfinished rest none_seen r (r', bad_archive) e ih = λ q. cc

  read_entries-ne-unfinished :
      (fuel : ℕ) (none_seen : Bool) (r : nr.Reader)
      → nr.left r < fuel
      → read_entries nr fuel none_seen r ≢ unfinished
  unfolding read_entries
  read_entries-ne-unfinished zero none_seen r h = absurd (omega arith)
  read_entries-ne-unfinished (suc fuel) none_seen r h =
      after-ne-unfinished (read_entries nr fuel false) none_seen r (nr.next r) refl
        (λ r' lt. read_entries-ne-unfinished fuel false r' (omega arith))

  module _ (d : Desync) (w : d.World) where
    -- With a reader each of whose entries takes some of what is left, the loop of the check of an archive
    -- comes to an end, whatever else the reader says.
    pub check_nar_contents-ne-unfinished :
        (index : Index) → check_nar_contents nr d w index ≢ unfinished
    unfolding check_nar_contents
    check_nar_contents-ne-unfinished index =
        let r = nr.new_reader (assembled d w index) in
        read_entries-ne-unfinished (nr.left r + 1) true r (omega arith)

    -- The check does not find fault with the index of a narinfo that can be written, if its length is
    -- right and the store has its chunks.
    pub check_fails-narinfo :
        (path : Bytes) (index : Index) (info : Narinfo)
        → ext path ≡ codes ".narinfo"
        → IsWritable info
        → Pieces d w index.chunks (marshal info)
        → index.index_length ≡ length (marshal info)
        → length (marshal info) < 2 ^ 64
        → check_fails nr d w path index ≡ false
    unfolding check_fails equal
    check_fails-narinfo path index info e writable pieces right small =
        rw (e, assemble_narinfo-marshal d w index info writable pieces right small) refl
