-- ===== src/Kernel/Choice/Newest.antt =====
-- internal/backend/cloudhypervisor/bootextract.go: the file that is taken is the newest there is.
use fleetbox.Copy.Paths.{is_abs, clean}
use fleetbox.Base.{
  holds, ℕ, ◌≢◌, ◌==◌, subst, ◌≤◌, ◌≡◌, refl, sym, ap, ◌∙◌, Bool, true, false, List, [], ◌∷◌, ◌++◌,
  Option, none, some, ltb, ◌⊎◌, inl, inr, In, arith, Bool-cases, Option-cases,
}
use fleetbox.Base.Text.{Text, codes, Text-discrete}
use fleetbox.Base.Strings.{has_prefix, has_suffix}
use fleetbox.Kernel.Choice.{
  DirEntry, BootFs, path_join, resolve_link_target, if_regular, named, follow_link,
  resolve_boot_unversioned, regular_time, candidate, take_newer, newest, versioned, resolve_in,
  resolve_boot_file,
}

module _ (name : Text) where
  -- The newest of the entries of a kind that may be taken, or that there is none.
  abbrev pub Best : (DirEntry → Type 0) → Option (DirEntry × ℕ) → Type 0
  Best S none = (e : DirEntry) → S e → candidate name e ≡ none
  Best S (some (b, t)) =
      S b
      × (candidate name b ≡ some t)
      × ((e : DirEntry) (u : ℕ) → S e → candidate name e ≡ some u → u ≤ t)

  Best-same :
      (S R : DirEntry → Type 0)
      → ((e : DirEntry) → S e → R e)
      → ((e : DirEntry) → R e → S e)
      → (b : Option (DirEntry × ℕ)) → Best S b
      → Best R b
  Best-same S R f g none h = λ e r. h e (g e r)
  Best-same S R f g (some (b, t)) (m, c, n) = (f b m, c, λ e u r. n e u (g e r))

  -- One more entry.
  take_newer-Best :
      (S : DirEntry → Type 0) (x : DirEntry) (c : Option ℕ)
      → candidate name x ≡ c
      → (b : Option (DirEntry × ℕ)) → Best S b
      → Best (λ e. S e ⊎ (x ≡ e)) (take_newer x c b)
  unfolding take_newer
  take_newer-Best S x none q none h =
      λ e m. elim m [ inl s ↦ h e s | inr p ↦ ap (candidate name) (sym p) ∙ q ]
  take_newer-Best S x none q (some (b, t)) (m, c, n) = (
    inl m,
    c,
    λ e u r k. elim r [
      | inl s ↦ n e u s k
      | inr p ↦ absurd (let other = ap (candidate name) p in cc)
    ],
  )
  take_newer-Best S x (some v) q none h = (
    inr refl,
    q,
    λ e u r k. elim r [
      | inl s ↦ absurd (let gone = h e s in cc)
      | inr p ↦ let other = ap (candidate name) p in let times : v ≡ u = cc in omega arith
    ],
  )
  take_newer-Best S x (some v) q (some (b, t)) (m, c, n) = elim (Bool-cases (ltb v t)) [
    | inl l ↦
        rw (take_newer, l)
          (
            inl m,
            c,
            λ e u r k. elim r [
              | inl s ↦ n e u s k
              | inr p ↦ let other = ap (candidate name) p in let times : v ≡ u = cc in ground arith
            ],
          )
    | inr l ↦
        rw (take_newer, l)
          (
            inr refl,
            q,
            λ e u r k. elim r [
              | inl s ↦ let older = n e u s k in ground arith
              | inr p ↦ let other = ap (candidate name) p in let times : v ≡ u = cc in omega arith
            ],
          )
  ]

  newest-Best :
      (es : List DirEntry) (S : DirEntry → Type 0) (b : Option (DirEntry × ℕ))
      → Best S b
      → Best (λ e. S e ⊎ In e es) (newest name es b)
  unfolding newest
  newest-Best [] S b h =
      Best-same S (λ e. S e ⊎ In e []) (λ e s. inl s)
        (λ e r. elim r [ inl s ↦ s | inr z ↦ absurd z ]) b h
  newest-Best (x ∷ es) S b h =
      Best-same (λ e. (S e ⊎ (x ≡ e)) ⊎ In e es) (λ e. S e ⊎ In e (x ∷ es))
        (λ e r. elim r [ inl (inl s) ↦ inl s | inl (inr p) ↦ inr (inl p) | inr m ↦ inr (inr m) ])
        (λ e r. elim r [ inl s ↦ inl (inl s) | inr (inl p) ↦ inl (inr p) | inr (inr m) ↦ inr m ])
        (newest name es (take_newer x (candidate name x) b))
        (newest-Best es (λ e. S e ⊎ (x ≡ e)) (take_newer x (candidate name x) b)
          (take_newer-Best S x (candidate name x) refl b h))

  newest_of : (es : List DirEntry) → Best (λ e. In e es) (newest name es none)
  newest_of es =
      Best-same (λ e. ⊥ ⊎ In e es) (λ e. In e es) (λ e r. elim r [ inl z ↦ absurd z | inr m ↦ m ])
        (λ e m. inr m) (newest name es none) (newest-Best es (λ e. ⊥) none (λ e z. absurd z))

  -- A versioned regular file that is no old copy, with its modification time.
  abbrev pub IsEligible : DirEntry → ℕ → Type 0
  IsEligible e u =
      (has_prefix e.name (name ++ codes "-") ≡ true)
      × (has_suffix e.name (codes ".old") ≡ false)
      × (e.info ≡ some (true, u))

  IsEligible-candidate : (e : DirEntry) (u : ℕ) → IsEligible e u → candidate name e ≡ some u
  unfolding candidate regular_time
  IsEligible-candidate e u (p, q, i) = rw (candidate, p, q, i) refl

  candidate-IsEligible : (e : DirEntry) (u : ℕ) → candidate name e ≡ some u → IsEligible e u
  unfolding candidate regular_time
  candidate-IsEligible e u h =
      on (has_prefix e.name (name ++ codes "-")) (has_suffix e.name (codes ".old")) e.info refl refl
        refl
    where
      on :
          (p s : Bool) (i : Option (Bool × ℕ))
          → has_prefix e.name (name ++ codes "-") ≡ p
          → has_suffix e.name (codes ".old") ≡ s
          → e.info ≡ i
          → IsEligible e u
      on false s i a b c = absurd (ground arith)
      on true true i a b c = absurd (ground arith)
      on true false none a b c = absurd (ground arith)
      on true false (some (false, t)) a b c = absurd (ground arith)
      on true false (some (true, t)) a b c = (a, b, ground arith)

  -- What the choice among versioned files comes to.
  abbrev pub Taken : Text → List DirEntry → Option Text → Type 0
  Taken dir es none = (e : DirEntry) (u : ℕ) → In e es → ¬ IsEligible e u
  Taken dir es (some p) =
      (b : DirEntry) × (t : ℕ) × In b es
      × IsEligible b t
      × (p ≡ path_join dir b.name)
      × ((e : DirEntry) (u : ℕ) → In e es → IsEligible e u → u ≤ t)

  versioned-Taken :
      (dir : Text) (es : List DirEntry) (r : Option (DirEntry × ℕ))
      → Best (λ e. In e es) r
      → Taken dir es (versioned dir r)
  unfolding versioned
  versioned-Taken dir es none h =
      λ e u m k. let is_none = h e m in let is_some_u = IsEligible-candidate e u k in cc
  versioned-Taken dir es (some (b, t)) (m, c, n) =
      (b, t, m, candidate-IsEligible b t c, refl, λ e u i k. n e u i (IsEligible-candidate e u k))

  if_regular-some : (fs : BootFs) (p q : Text) → if_regular fs p ≡ some q → fs.is_regular q ≡ true
  unfolding if_regular
  if_regular-some fs p q h = ground arith

  unversioned-regular :
      (fs : BootFs) (dir : Text) (es : List DirEntry) (p : Text)
      → resolve_boot_unversioned fs dir name es ≡ some p
      → fs.is_regular p ≡ true
  unfolding resolve_boot_unversioned follow_link
  unversioned-regular fs dir es p h = on (named name es) refl
    where
      linked : (t : Option Text) → follow_link fs dir t ≡ some p → fs.is_regular p ≡ true
      linked none q = absurd (cc)
      linked (some t) q = if_regular-some fs (resolve_link_target dir t) p q

      on : (e : Option DirEntry) → named name es ≡ e → fs.is_regular p ≡ true
      on none e = absurd (ground arith)
      on (some x) e = elim (Bool-cases x.is_link) [
        | inl l ↦ linked (fs.read_link (path_join dir name)) (ground arith)
        | inr l ↦ if_regular-some fs (path_join dir name) p (ground arith)
      ]

  -- The entry of that name that the directory lists first.
  abbrev First : List DirEntry → DirEntry → Type 0
  First [] e = ⊥
  First (x ∷ xs) e = ((x.name ≡ name) × (x ≡ e)) ⊎ ((x.name ≢ name) × First xs e)

  -- Where a link of a directory leads: from the root of the guest's file system, or from the directory.
  abbrev LeadsTo : Text → Text → Text → Type 0
  LeadsTo dir target p =
      ((rest : Text) × (target ≡ b'/' ∷ rest) × (p ≡ clean rest))
      ⊎ (((rest : Text) → target ≢ b'/' ∷ rest) × (p ≡ clean (path_join dir target)))

  -- The file with the plain name is that regular file, or a link to it.
  abbrev pub IsPlain : BootFs → Text → List DirEntry → Text → Type 0
  IsPlain fs dir es p =
      (e : DirEntry) × First es e
      × ((e.is_link ≡ false × (p ≡ path_join dir name))
          ⊎ ((e.is_link ≡ true)
              × ((target : Text) × (fs.read_link (path_join dir name) ≡ some target)
                  × LeadsTo dir target p)))
      × (fs.is_regular p ≡ true)

  named-First : (es : List DirEntry) (e : DirEntry) → named name es ≡ some e → First es e
  unfolding named Text-discrete
  named-First [] e q = absurd (cc)
  named-First (x ∷ xs) e q = on (Text-discrete x.name name) q (named-First xs e)
    where
      on :
          (d : Dec (x.name ≡ name))
          → elim (holds d) as (λ _. Option DirEntry) [ true ↦ some x | false ↦ named name xs ]
            ≡ some e
          → (named name xs ≡ some e → First xs e)
          → First (x ∷ xs) e
      on (yes k) q ih = inl (k, cc)
      on (no k) q ih = inr (k, ih q)

  First-named : (es : List DirEntry) (e : DirEntry) → First es e → named name es ≡ some e
  unfolding named Text-discrete
  First-named [] e f = absurd f
  First-named (x ∷ xs) e f = on (Text-discrete x.name name) f (First-named xs e)
    where
      on :
          (d : Dec (x.name ≡ name))
          → First (x ∷ xs) e
          → (First xs e → named name xs ≡ some e)
          → elim (holds d) as (λ _. Option DirEntry) [ true ↦ some x | false ↦ named name xs ]
            ≡ some e
      on (yes k) (inl (_, q)) ih = ap some q
      on (yes k) (inr (n, f)) ih = absurd (n k)
      on (no n) (inl (k, q)) ih = absurd (n k)
      on (no n) (inr (_, f)) ih = ih f

  resolve_link_target-LeadsTo :
      (dir target : Text) → LeadsTo dir target (resolve_link_target dir target)
  unfolding resolve_link_target is_abs
  resolve_link_target-LeadsTo dir [] = inr (λ rest q. cc, refl)
  resolve_link_target-LeadsTo dir (c ∷ rest) = elim (Bool-cases (c == b'/')) [
    | inl k ↦
        inl (rest, (let slash : c ≡ b'/' = ground arith in ap (λ d. d ∷ rest) slash), rw k refl)
    | inr k ↦ inr (λ s q. (let slash : c ≡ b'/' = cc in ground arith), rw k refl)
  ]

  LeadsTo-unique : (dir target p q : Text) → LeadsTo dir target p → LeadsTo dir target q → p ≡ q
  LeadsTo-unique dir target p q (inl (a, e, h)) (inl (b, e', h')) = let both : a ≡ b = cc in cc
  LeadsTo-unique dir target p q (inl (a, e, h)) (inr (n, h')) = absurd (n a e)
  LeadsTo-unique dir target p q (inr (n, h)) (inl (b, e', h')) = absurd (n b e')
  LeadsTo-unique dir target p q (inr (n, h)) (inr (n', h')) = h ∙ sym h'

  unversioned-IsPlain :
      (fs : BootFs) (dir : Text) (es : List DirEntry) (p : Text)
      → resolve_boot_unversioned fs dir name es ≡ some p
      → IsPlain fs dir es p
  unfolding resolve_boot_unversioned follow_link if_regular
  unversioned-IsPlain fs dir es p h = on (named name es) refl
    where
      linked :
          (t : Option Text)
          → follow_link fs dir t ≡ some p
          → (target : Text) × (t ≡ some target) × LeadsTo dir target p
      linked none q = absurd (cc)
      linked (some t) q =
          let here : resolve_link_target dir t ≡ p = ground arith in
          (t, refl, subst (LeadsTo dir t) here (resolve_link_target-LeadsTo dir t))

      on : (e : Option DirEntry) → named name es ≡ e → IsPlain fs dir es p
      on none e = absurd (ground arith)
      on (some x) e =
          let regular = unversioned-regular fs dir es p h in
          elim (Bool-cases x.is_link) [
            | inl l ↦ (
              x,
              named-First es x e,
              inr (l, linked (fs.read_link (path_join dir name)) (ground arith)),
              regular,
            )
            | inr l ↦ (x, named-First es x e, inl (l, ground arith), regular)
          ]

  IsPlain-unversioned :
      (fs : BootFs) (dir : Text) (es : List DirEntry) (p : Text)
      → IsPlain fs dir es p
      → resolve_boot_unversioned fs dir name es ≡ some p
  unfolding resolve_boot_unversioned follow_link if_regular
  IsPlain-unversioned fs dir es p (e, f, inl (l, q), r) =
      let found = First-named es e f in
      let regular : fs.is_regular (path_join dir name) ≡ true = ap fs.is_regular (sym q) ∙ r in
      rw (resolve_boot_unversioned, found, l, if_regular, regular) (ap some (sym q))
  IsPlain-unversioned fs dir es p (e, f, inr (l, (t, link, leads)), r) =
      let found = First-named es e f in
      let there : resolve_link_target dir t ≡ p =
        LeadsTo-unique dir t _ p (resolve_link_target-LeadsTo dir t) leads in
      let regular : fs.is_regular (resolve_link_target dir t) ≡ true = ap fs.is_regular there ∙ r in
      rw (resolve_boot_unversioned, found, l, link, follow_link, if_regular, regular)
        (ap some there)

  -- In a directory that can be read, the file with the plain name is taken if it is regular, or a link to a
  -- regular file, an absolute one from the root of the file system and another one from the directory; else the newest regular file whose name goes on with a version and does not end in
  -- `.old`; and none only if there is no such file.
  pub resolve_boot_file-Taken :
      (fs : BootFs) (dir : Text) (es : List DirEntry)
      → fs.read_dir dir ≡ some es
      → ((p : Text) × (resolve_boot_file fs dir name ≡ some p) × IsPlain fs dir es p)
        ⊎ (((p : Text) → ¬ IsPlain fs dir es p) × Taken dir es (resolve_boot_file fs dir name))
  unfolding resolve_boot_file resolve_in
  resolve_boot_file-Taken fs dir es e =
      elim (Option-cases (resolve_boot_unversioned fs dir name es)) [
        | inr (p, q) ↦
            inl
              (p, rw (resolve_boot_file, e, resolve_in, q) refl, unversioned-IsPlain fs dir es p q)
        | inl q ↦ inr (
          λ p plain. let there = IsPlain-unversioned fs dir es p plain in cc,
          rw (resolve_boot_file, e, resolve_in, q)
              (versioned-Taken dir es (newest name es none) (newest_of es)),
        )
      ]
