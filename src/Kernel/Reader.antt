-- ===== src/Kernel/Reader.antt =====
-- internal/backend/cloudhypervisor/bootextract.go: `blockAlignedReader`, and reading a file through it. The
-- source is what is left of a file, with the offset it stands at. A fill of the buffer is one `io.ReadFull`, whose reads of
-- the source are not told apart; `fails` tells at which offsets a fill fails, and how many bytes it has read until then;
-- nothing is read behind a failure.
pub mod Whole
use fleetbox.Base.{
  ℕ, suc, ◌+◌, ◌-◌, ◌%◌, ◌<◌, ◌≡◌, refl, sym, ap, ◌∙◌, subst, Bool, true, false, Option, none, some,
  List, [], ◌∷◌, ◌++◌, append_assoc, append-nil, arith, ltb, length, Bool-cases, inl, inr,
}
use fleetbox.Base.Text.{Text}
use fleetbox.Base.Strings.{take, drop}

-- `blockAlignedReader`; `unread` is `buf[off:end]`.
pub record Reader : Type 0 where
  pub rest : Text
  pub offset : ℕ
  pub unread : Text
  pub eof : Bool

pub data Read : Type 0 where
  bytes : Text → Read
  end_of_file failure : Read

-- `newBlockAlignedReader`
pub new_reader : Text → Reader
new_reader t = record { rest = t; offset = 0; unread = []; eof = false }

-- `ext4MaxBlockSize`
abbrev pub ext4_max_block_size : ℕ
ext4_max_block_size = 65536

pub serve : ℕ → Reader → Reader × Read
serve m r = (record r { unread = drop m r.unread }, bytes (take m r.unread))

-- What reads one after the other give together, up to the first that gives no bytes.
pub record Reads : Type 0 where
  pub reader : Reader
  pub output : Text
  pub ended : Bool
  pub failed : Bool

pub before : Text → Reads → Reads
before t x = record {
  reader = x.reader;
  output = t ++ x.output;
  ended = x.ended;
  failed = x.failed;
}

module _ (fails : ℕ → Option ℕ) where
  -- The buffer after `io.ReadFull`.
  unfoldable pub filled : Reader → Reader
  filled r =
      let got = take ext4_max_block_size r.rest in
      record {
        rest = drop ext4_max_block_size r.rest;
        offset = r.offset + length got;
        unread = got;
        eof = ltb (length got) ext4_max_block_size;
      }

  unfoldable pub serve_filled : ℕ → Reader → Text → Reader × Read
  serve_filled m r [] = (r, end_of_file)
  serve_filled m r (c ∷ got) = serve m r

  -- A fill that fails leaves the source behind what it has read, which is lost.
  unfoldable pub refill : ℕ → Reader → Option ℕ → Reader × Read
  refill m r (some k) =
      (record r { rest = drop k r.rest; offset = r.offset + length (take k r.rest) }, failure)
  refill m r none = serve_filled m (filled r) (filled r).unread

  unfoldable pub unless_eof : ℕ → Reader → Bool → Reader × Read
  unless_eof m r true = (r, end_of_file)
  unless_eof m r false = refill m r (fails r.offset)

  unfoldable pub read_unread : ℕ → Reader → Text → Reader × Read
  read_unread m r [] = unless_eof m r r.eof
  read_unread m r (c ∷ cs) = serve m r

  -- `Read`, into `m` bytes.
  unfoldable pub read : ℕ → Reader → Reader × Read
  read m r = read_unread m r r.unread

  unfoldable pub go_on : Reader × Read → (Reader → Reads) → Reads
  go_on (r, bytes t) k = before t (k r)
  go_on (r, end_of_file) k = record { reader = r; output = []; ended = true; failed = false }
  go_on (r, failure) k = record { reader = r; output = []; ended = false; failed = true }

  unfoldable pub read_each : List ℕ → Reader → Reads
  read_each [] r = record { reader = r; output = []; ended = false; failed = false }
  read_each (m ∷ ms) r = go_on (read m r) (read_each ms)
