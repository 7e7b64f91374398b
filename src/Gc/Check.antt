-- ===== src/Gc/Check.antt =====
-- What the workers check of an index: the contents of an archive, and the text of a narinfo.
pub mod Decides
use spongix.Base.{ℕ, zero, suc, ◌+◌, ◌<◌, ◌≡◌, Bytes, Bool, true, false, codes, if◌then◌else◌}
use spongix.Strings.{equal, ext}
use spongix.Desync.{Desync, Index}
use spongix.Narinfo.{Narinfo, Result, ok, err}
use spongix.Assembler.{Copied}
use spongix.Assembler.Narinfos.{assembled, assemble_narinfo}

-- What `Next` of the reader of archives says.
pub data NextHeader : Type 0 where
  entry end_of_file bad_archive : NextHeader

-- The reader of go-nix over the data of a reader; an entry takes at least one byte of what is left.
pub record NarReader : Type 1 where
  pub Reader : Type 0
  pub new_reader : Copied → Reader
  pub next : Reader → Reader × NextHeader
  pub left : Reader → ℕ
  pub takes : (r r' : Reader) → next r ≡ (r', entry) → left r' < left r

pub data NarCheck : Type 0 where
  nar_ok no_contents nar_broken unfinished : NarCheck

module _ (nr : NarReader) where
  abbrev pub after : (nr.Reader → NarCheck) → Bool → nr.Reader × NextHeader → NarCheck
  after rest none_seen (r, entry) = rest r
  after rest none_seen (r, end_of_file) = if none_seen then no_contents else nar_ok
  after rest none_seen (r, bad_archive) = nar_broken

  -- The loop; `unfinished` means that the fuel ran out.
  unfoldable pub read_entries : ℕ → Bool → nr.Reader → NarCheck
  read_entries zero none_seen r = unfinished
  read_entries (suc fuel) none_seen r = after (read_entries fuel false) none_seen (nr.next r)

  module _ (d : Desync) (w : d.World) where
    unfoldable pub check_nar_contents : Index → NarCheck
    unfolding read_entries assembled
    check_nar_contents index =
        let r = nr.new_reader (assembled d w index) in read_entries (nr.left r + 1) true r

    abbrev nar_fails : NarCheck → Bool
    nar_fails nar_ok = false
    nar_fails no_contents = true
    nar_fails nar_broken = true
    nar_fails unfinished = true

    abbrev narinfo_fails : Result Narinfo → Bool
    narinfo_fails (ok info) = false
    narinfo_fails (err e) = true

    -- A worker's switch: whether it stores the path as dead.
    unfoldable pub check_fails : Bytes → Index → Bool
    unfolding ext equal check_nar_contents assemble_narinfo
    check_fails path index =
        if equal (ext path) (codes ".nar")
        then nar_fails (check_nar_contents index)
        else if equal (ext path) (codes ".narinfo")
        then narinfo_fails (assemble_narinfo d w index)
        else false
