-- ===== src/Kernel/Reader/Whole.antt =====
-- internal/backend/cloudhypervisor/bootextract.go: what is read through a `blockAlignedReader`.
use fleetbox.Base.{
  ℕ, zero, suc, ◌+◌, ◌%◌, ◌<◌, ◌≤◌, ◌≡◌, refl, sym, ap, ◌∙◌, subst, Bool, true, false, Option, none,
  some, List, [], ◌∷◌, ◌++◌, append_assoc, arith, ltb, length, length-append, All,
}
use fleetbox.Base.Text.{Text}
use fleetbox.Base.Strings.{take, drop}
use fleetbox.Kernel.Reader.{
  Reader, Read, bytes, end_of_file, failure, new_reader, ext4_max_block_size, serve, filled,
  serve_filled, refill, unless_eof, read_unread, read, Reads, before, go_on, read_each,
}

take-drop : (m : ℕ) (s : Text) → take m s ++ drop m s ≡ s
take-drop zero s = refl
take-drop (suc m) [] = refl
take-drop (suc m) (c ∷ s) = ap (λ t. c ∷ t) (take-drop m s)

drop-short : (m : ℕ) (s : Text) → length (take m s) < m → drop m s ≡ []
drop-short zero s h = absurd (omega arith)
drop-short (suc m) [] h = refl
drop-short (suc m) (c ∷ s) h = drop-short m s (omega arith)

length-take : (m : ℕ) (s : Text) → length (take m s) ≤ m
length-take zero s = omega arith
length-take (suc m) [] = omega arith
length-take (suc m) (c ∷ s) = let h = length-take m s in omega arith

less_of : (a b : ℕ) → ltb a b ≡ true → a < b
less_of a b e = ground arith

not_less_of : (a b : ℕ) → ltb a b ≡ false → b ≤ a
not_less_of a b e = ground arith

next_block :
    (k n : ℕ)
    → k % ext4_max_block_size ≡ 0
    → n ≤ ext4_max_block_size
    → ext4_max_block_size ≤ n
    → (k + n) % ext4_max_block_size ≡ 0
next_block k n h a b = omega arith

-- The source is read at multiples of the block until its end has been seen, and then nothing is left of it.
pub record IsAligned (r : Reader) : Type 0 where
  pub aligned : r.eof ≡ false → r.offset % ext4_max_block_size ≡ 0
  pub finished : r.eof ≡ true → r.rest ≡ []

-- What is still to come.
abbrev left : Reader → Text
left r = r.unread ++ r.rest

module _ (fails : ℕ → Option ℕ) where
  -- What a read leaves.
  abbrev Step : Reader → Reader × Read → Type 0
  Step r (r', bytes t) = IsAligned r' × (t ++ left r' ≡ left r)
  Step r (r', end_of_file) = IsAligned r' × (left r ≡ []) × (left r' ≡ [])
  Step r (r', failure) = Unit

  serve-Step : (m : ℕ) (r : Reader) → IsAligned r → Step r (serve m r)
  unfolding serve
  serve-Step m r h = (
    record { aligned = h.aligned; finished = h.finished },
    sym (append_assoc (take m r.unread) (drop m r.unread) r.rest)
        ∙ ap (λ t. t ++ r.rest) (take-drop m r.unread),
  )

  filled-IsAligned : (r : Reader) → r.eof ≡ false → IsAligned r → IsAligned (filled fails r)
  unfolding filled
  filled-IsAligned r e h = record {
    aligned = λ q.
        next_block r.offset (length (take ext4_max_block_size r.rest)) (h.aligned e)
          (length-take ext4_max_block_size r.rest)
          (not_less_of (length (take ext4_max_block_size r.rest)) ext4_max_block_size q);
    finished = λ q.
        drop-short ext4_max_block_size r.rest
          (less_of (length (take ext4_max_block_size r.rest)) ext4_max_block_size q);
  }

  -- A filled buffer is what was left of the source.
  left-filled : (r : Reader) → r.unread ≡ [] → left (filled fails r) ≡ left r
  unfolding filled
  left-filled r e = take-drop ext4_max_block_size r.rest ∙ ap (λ t. t ++ r.rest) (sym e)

  nothing_left : (t s : Text) → t ≡ [] → s ≡ [] → t ++ s ≡ []
  nothing_left t s e q = ap (λ x. x ++ s) e ∙ q

  -- An empty buffer after a fill is the end.
  empty-filled : (r : Reader) → (filled fails r).unread ≡ [] → (filled fails r).rest ≡ []
  unfolding filled
  empty-filled r e =
      let none_read : length (take ext4_max_block_size r.rest) ≡ 0 = ap length e in
      drop-short ext4_max_block_size r.rest (omega arith)

  same-Step : (r r' : Reader) (x : Reader × Read) → left r' ≡ left r → Step r' x → Step r x
  same-Step r r' (y, bytes t) e (h, q) = (h, q ∙ e)
  same-Step r r' (y, end_of_file) e (h, q, z) = (h, sym e ∙ q, z)
  same-Step r r' (y, failure) e s = tt

  refill-Step :
      (m : ℕ) (r : Reader)
      → r.unread ≡ []
      → r.eof ≡ false
      → IsAligned r
      → (b : Option ℕ) → Step r (refill fails m r b)
  unfolding refill serve_filled
  refill-Step m r u e h (some k) = tt
  refill-Step m r u e h none = on (filled fails r).unread refl
    where
      on :
          (t : Text)
          → (filled fails r).unread ≡ t
          → Step r (serve_filled fails m (filled fails r) t)
      on [] q =
          let gone =
            nothing_left (filled fails r).unread (filled fails r).rest q (empty-filled r q) in
          (filled-IsAligned r e h, sym (left-filled r u) ∙ gone, gone)
      on (c ∷ t) q =
          same-Step r (filled fails r) (serve m (filled fails r)) (left-filled r u)
            (serve-Step m (filled fails r) (filled-IsAligned r e h))

  eof-Step :
      (m : ℕ) (r : Reader)
      → r.unread ≡ []
      → IsAligned r
      → (b : Bool) → r.eof ≡ b
      → Step r (unless_eof fails m r b)
  unfolding unless_eof
  eof-Step m r u h true e =
      let gone = nothing_left r.unread r.rest u (h.finished e) in (h, gone, gone)
  eof-Step m r u h false e = refill-Step m r u e h (fails r.offset)

  read-Step : (m : ℕ) (r : Reader) → IsAligned r → Step r (read fails m r)
  unfolding read read_unread
  read-Step m r h = on r.unread refl
    where
      on : (t : Text) → r.unread ≡ t → Step r (read_unread fails m r t)
      on [] u = eof-Step m r u h r.eof refl
      on (c ∷ t) u = serve-Step m r h

  -- What reads together leave.
  record Together (r : Reader) (x : Reads) : Type 0 where
    aligned : x.failed ≡ false → IsAligned x.reader
    whole : (s : Text) × (x.output ++ s ≡ left r)
    to_end : x.ended ≡ true → x.output ≡ left r

  go_on-Together :
      (r : Reader) (s : Reader × Read) (k : Reader → Reads)
      → Step r s
      → ((r' : Reader) → IsAligned r' → Together r' (k r'))
      → Together r (go_on fails s k)
  unfolding go_on before
  go_on-Together r (r', bytes t) k (h, q) g =
      let x = g r' h in
      record {
        aligned = x.aligned;
        whole =
            (x.whole.0, append_assoc t (k r').output x.whole.0 ∙ ap (λ s. t ++ s) x.whole.1 ∙ q);
        to_end = λ e. ap (λ s. t ++ s) (x.to_end e) ∙ q;
      }
  go_on-Together r (r', end_of_file) k (h, q, z) g = record {
    aligned = λ _. h;
    whole = ([], sym q);
    to_end = λ _. sym q;
  }
  go_on-Together r (r', failure) k s g = record {
    aligned = λ e. absurd (cc);
    whole = (left r, refl);
    to_end = λ e. absurd (cc);
  }

  read_each-Together : (ms : List ℕ) (r : Reader) → IsAligned r → Together r (read_each fails ms r)
  unfolding read_each
  read_each-Together [] r h = record {
    aligned = λ _. h;
    whole = (left r, refl);
    to_end = λ e. absurd (cc);
  }
  read_each-Together (m ∷ ms) r h =
      go_on-Together r (read fails m r) (read_each fails ms) (read-Step m r h)
        (read_each-Together ms)

  -- A read into a buffer that is not empty gives a byte at least, or the end, or a failure.
  abbrev Gives : Reader × Read → Type 0
  Gives (r, bytes t) = 0 < length t
  Gives (r, end_of_file) = Unit
  Gives (r, failure) = (k : ℕ) × (n : ℕ) × (fails k ≡ some n)

  serve-Gives :
      (m : ℕ) (r : Reader) (c : ℕ) (t : Text) → 0 < m → r.unread ≡ c ∷ t → Gives (serve m r)
  unfolding serve
  serve-Gives zero r c t h e = absurd (omega arith)
  serve-Gives (suc m) r c t h e = subst (λ s. 0 < length (take (suc m) s)) (sym e) (omega arith)

  refill-Gives :
      (m : ℕ) (r : Reader)
      → 0 < m
      → (b : Option ℕ) → fails r.offset ≡ b
      → Gives (refill fails m r b)
  unfolding refill serve_filled
  refill-Gives m r h (some n) e = (r.offset, n, e)
  refill-Gives m r h none e = on (filled fails r).unread refl
    where
      on :
          (t : Text) → (filled fails r).unread ≡ t → Gives (serve_filled fails m (filled fails r) t)
      on [] q = tt
      on (c ∷ t) q = serve-Gives m (filled fails r) c t h q

  read-Gives : (m : ℕ) (r : Reader) → 0 < m → Gives (read fails m r)
  unfolding read read_unread unless_eof
  read-Gives m r h = on r.unread refl
    where
      past : (b : Bool) → Gives (unless_eof fails m r b)
      past true = tt
      past false = refill-Gives m r h (fails r.offset) refl

      on : (t : Text) → r.unread ≡ t → Gives (read_unread fails m r t)
      on [] u = past r.eof
      on (c ∷ t) u = serve-Gives m r c t h u

  read_each-ends :
      ((k : ℕ) → fails k ≡ none)
      → (ms : List ℕ) (r : Reader) → IsAligned r
      → All (λ m. 0 < m) ms
      → length (left r) < length ms
      → (read_each fails ms r).ended ≡ true
  unfolding read_each go_on before
  read_each-ends never [] r h a l = absurd (omega arith)
  read_each-ends never (m ∷ ms) r h (p, a) l =
      on (λ r' h' l'. read_each-ends never ms r' h' a l') (read fails m r) (read-Step m r h)
        (read-Gives m r p)
    where
      on :
          ((r' : Reader)
            → IsAligned r'
            → length (left r') < length ms
            → (read_each fails ms r').ended ≡ true)
          → (x : Reader × Read) → Step r x
          → Gives x
          → (go_on fails x (read_each fails ms)).ended ≡ true
      on ih (r', end_of_file) s g = refl
      on ih (r', failure) s (k, n, q) = absurd (let no_failure = never k in cc)
      on ih (r', bytes t) (h', e) g =
          let total = sym (length-append t (left r')) ∙ ap length e in ih r' h' (omega arith)

  -- What reads have to do with the file: all of it at its end, and a first part of it until then.
  abbrev pub Delivers : Bool → Text → Text → Type 0
  Delivers true out t = out ≡ t
  Delivers false out t = (s : Text) × (out ++ s ≡ t)

  abbrev pub AtBlock : Bool → ℕ → Type 0
  AtBlock true k = Unit
  AtBlock false k = k % ext4_max_block_size ≡ 0

  start : (t : Text) → IsAligned (new_reader t)
  unfolding new_reader
  start t = record { aligned = λ e. omega arith; finished = λ e. absurd (cc) }

  -- Reads through the buffer, of any lengths and whether its fills fail or not, give a first part of the file in order,
  -- and all of it where they report its end. Where no fill has failed and the end of the file has not been seen, the file
  -- stands at a multiple of the block between two fills.
  pub read_each-Delivers :
      (ms : List ℕ) (t : Text)
      → let x = read_each fails ms (new_reader t) in
        Delivers x.ended x.output t × (x.failed ≡ false → AtBlock x.reader.eof x.reader.offset)
  unfolding new_reader
  read_each-Delivers ms t = (on x.ended refl, λ e. at e x.reader.eof refl)
    where
      x : Reads
      x = read_each fails ms (new_reader t)

      h : Together (new_reader t) x
      h = read_each-Together ms (new_reader t) (start t)

      on : (b : Bool) → x.ended ≡ b → Delivers b x.output t
      on true e = h.to_end e
      on false e = h.whole

      at : x.failed ≡ false → (b : Bool) → x.reader.eof ≡ b → AtBlock b x.reader.offset
      at whole true e = tt
      at whole false e = (h.aligned whole).aligned e

  -- If no fill fails, more reads than the file has bytes, none of them empty, end with the end of
  -- the file and give all of it.
  pub read_each-whole :
      ((k : ℕ) → fails k ≡ none)
      → (ms : List ℕ) (t : Text) → All (λ m. 0 < m) ms
      → length t < length ms
      → let x = read_each fails ms (new_reader t) in (x.ended ≡ true) × (x.output ≡ t)
  unfolding new_reader
  read_each-whole never ms t a l =
      let e = read_each-ends never ms (new_reader t) (start t) a l in
      (
        e,
        subst (λ b. Delivers b (read_each fails ms (new_reader t)).output t) e
            (read_each-Delivers ms t).0,
      )
