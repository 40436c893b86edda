-- ===== src/Symbols/Pattern.antt =====
-- `match_pattern` against what it means for a name to match a pattern with * and ?.
use ben_eater.Common.{
  ℕ, zero, suc, ◌+◌, ◌*◌, ◌≤◌, ◌<◌, ◌≡◌, ◌↔◌, ◌⊎◌, refl, Bool, true, false, not, ◌&&◌, ◌||◌, Option,
  none, some, [], ◌∷◌, Text, length, drop, ◌==◌, arith, inl, inr, Bool-cases, ==→eq,
}
use ben_eater.Symbols.{Star, backtrack, only_stars, match_loop, match_pattern}

-- A pattern character other than a star takes one character: any for ?, else its own.
abbrev pub accepts : ℕ → ℕ → Bool
accepts q c = not (q == b'*') && (q == b'?' || q == c)

-- A star stands for any run of characters.
pub data Matches : Text → Text → Type 0 where
  finish : Matches [] []
  one : {q c : ℕ} {p t : Text} → accepts q c ≡ true → Matches p t → Matches (q ∷ p) (c ∷ t)
  leave : {q : ℕ} {p t : Text} → (q == b'*') ≡ true → Matches p t → Matches (q ∷ p) t
  absorb : {q c : ℕ} {p t : Text} → (q == b'*') ≡ true → Matches (q ∷ p) t → Matches (q ∷ p) (c ∷ t)

module _ {q : ℕ} {p : Text} where
  star_at_end : (q == b'*') ≡ true → Matches (q ∷ p) [] → Matches p []
  star_at_end h (leave _ d) = d

  star_or_more :
      {c : ℕ} {t : Text}
      → (q == b'*') ≡ true
      → Matches (q ∷ p) (c ∷ t)
      → Matches p (c ∷ t) ⊎ Matches (q ∷ p) t
  star_or_more h (one a d) = absurd (ground arith)
  star_or_more h (leave _ d) = inl d
  star_or_more h (absorb _ d) = inr d

  one_inv :
      {c : ℕ} {t : Text}
      → (q == b'*') ≡ false
      → Matches (q ∷ p) (c ∷ t)
      → (accepts q c ≡ true) × Matches p t
  one_inv h (one a d) = (a, d)
  one_inv h (leave s d) = absurd (ground arith)
  one_inv h (absorb s d) = absurd (ground arith)

not_accepted :
    {q c : ℕ} {p t : Text}
    → (q == b'*') ≡ false
    → (q == b'?' || q == c) ≡ false
    → ¬ Matches (q ∷ p) (c ∷ t)
not_accepted {q} {c} h a d = no_test (one_inv h d).0
  where
    no_test : accepts q c ≡ true → ⊥
    no_test e = cc (rw (h, a) at e)

-- Two stars are no more than one.
join_stars :
    {q r : ℕ} {p t : Text}
    → (q == b'*') ≡ true
    → (r == b'*') ≡ true
    → Matches (q ∷ r ∷ p) t
    → Matches (r ∷ p) t
join_stars h k (one a d) = absurd (ground arith)
join_stars h k (leave _ d) = d
join_stars h k (absorb _ d) = absorb k (join_stars h k d)

-- Wherever the pattern behind a star matches, its tail matches further on.
pass_one :
    {q r : ℕ} {p : Text} {c : ℕ} (t : Text)
    → (q == b'*') ≡ true
    → (r == b'*') ≡ false
    → Matches (q ∷ r ∷ p) (c ∷ t)
    → Matches (q ∷ p) t
pass_one t h k (one a d) = absurd (ground arith)
pass_one t h k (leave _ d) = leave h (one_inv k d).1
pass_one [] h k (absorb _ (leave _ (leave s d))) = absurd (ground arith)
pass_one (x ∷ t) h k (absorb _ d) = absorb h (pass_one t h k d)

only_stars→Matches : (p : Text) → only_stars p ≡ true → Matches p []
unfolding only_stars
only_stars→Matches [] e = finish
only_stars→Matches (q ∷ p) e = elim (Bool-cases (q == b'*')) [
  | inl h ↦ leave h (only_stars→Matches p (rw h at e))
  | inr h ↦ absurd (ground arith)
]

Matches→only_stars : {p : Text} → Matches p [] → only_stars p ≡ true
unfolding only_stars
Matches→only_stars finish = refl
Matches→only_stars (leave h d) = rw h (Matches→only_stars d)

-- An answer to the question `G`; running out of fuel is none.
abbrev pub Answers : Type 0 → Option Bool → Type 0
Answers G none = ⊥
Answers G (some true) = G
Answers G (some false) = ¬ G

Answers-map : {G H : Type 0} (r : Option Bool) → G ↔ H → Answers G r → Answers H r
Answers-map none e a = a
Answers-map (some true) e a = e.0 a
Answers-map (some false) e a = λ h. a (e.1 h)

Answers-test : (b : Bool) {G : Type 0} → (b ≡ true) ↔ G → Answers G (some b)
Answers-test true e = e.0 refl
Answers-test false e = λ g. cc (e.1 g)

-- That the last star takes one character more than it has.
abbrev Later : Star → Type 0
Later none = ⊥
Later (some (sp, st)) = Matches (b'*' ∷ sp) (drop 1 st)

-- `k` bounds the patterns in play, `m` the text behind the last star.
abbrev StarIn : ℕ → ℕ → Text → Star → Type 0
StarIn k m t none = Unit {0}
StarIn k m t (some (sp, st)) = (length sp ≤ k) × (length t ≤ length st) × (length st ≤ m)

record Inv (k f m : ℕ) (p t : Text) (star : Star) : Type 0 where
  no_loss : Later star → Matches (b'*' ∷ p) t
  in_star : StarIn k m t star
  in_pattern : length p ≤ k
  in_text : length t ≤ m
  fuel : m * (k + 1) + length p < f

-- A star takes nothing, or one character more.
star_split :
    (sp st : Text) → Matches (b'*' ∷ sp) st → Matches sp st ⊎ Matches (b'*' ∷ sp) (drop 1 st)
star_split sp [] d = inl (star_at_end refl d)
star_split sp (c ∷ st) d = star_or_more refl d

star_join :
    (sp st : Text) → Matches sp st ⊎ Matches (b'*' ∷ sp) (drop 1 st) → Matches (b'*' ∷ sp) st
star_join sp st (inl d) = leave refl d
star_join sp [] (inr d) = d
star_join sp (c ∷ st) (inr d) = absorb refl d

abbrev Question : Text → Text → Star → Type 0
Question p t star = Matches p t ⊎ Later star

module _ (k : ℕ) where
  backtrack-Answers :
      (f m c : ℕ) (p t : Text) (star : Star)
      → ((m' : ℕ) (p' t' : Text) (star' : Star)
          → Inv k f m' p' t' star'
          → Answers (Question p' t' star') (match_loop f p' t' star'))
      → Inv k (suc f) m p (c ∷ t) star
      → ¬ Matches p (c ∷ t)
      → Answers (Question p (c ∷ t) star) (backtrack star (match_loop f))
  unfolding backtrack
  backtrack-Answers f m c p t none ih i n = λ g. elim g [ inl d ↦ n d | inr l ↦ l ]
  backtrack-Answers f m c p t (some (sp, [])) ih i n = omega (arith, i.in_star)
  backtrack-Answers f zero c p t (some (sp, x ∷ st)) ih i n = absurd (omega arith)
  backtrack-Answers f (suc m) c p t (some (sp, x ∷ st)) ih i n =
      Answers-map (match_loop f sp st (some (sp, st)))
        (
          λ g. inr (star_join sp st g),
          λ g. elim g [ inl d ↦ absurd (n d) | inr d ↦ star_split sp st d ],
        )
        (ih m sp st (some (sp, st)) (record {
          no_loss = λ d. star_join sp st (inr d);
          in_star = (i.in_star.0, omega arith, omega arith);
          in_pattern = i.in_star.0;
          in_text = omega arith;
          fuel = omega (arith, i.in_star.0);
        }))

  star-Inv :
      {f m q c : ℕ} {p t : Text} {star : Star}
      → Inv k (suc f) m (q ∷ p) (c ∷ t) star
      → Inv k f m p (c ∷ t) (some (p, c ∷ t))
  star-Inv i = record {
    no_loss = λ d. absorb refl d;
    in_star = omega arith;
    in_pattern = omega arith;
    in_text = i.in_text;
    fuel = omega arith;
  }

  star_iff :
      {q c : ℕ} {p t : Text} (star : Star)
      → (q == b'*') ≡ true
      → (Later star → Matches (b'*' ∷ q ∷ p) (c ∷ t))
      → Question p (c ∷ t) (some (p, c ∷ t)) ↔ Question (q ∷ p) (c ∷ t) star
  star_iff {q} {c} {p} {t} star h no_loss = (
    λ g. inl (rw (==→eq q b'*' h) (star_join p (c ∷ t) g)),
    λ g. star_split p (c ∷ t) (rw (==→eq q b'*' h) at (whole g)),
  )
    where
      whole : Question (q ∷ p) (c ∷ t) star → Matches (q ∷ p) (c ∷ t)
      whole (inl d) = d
      whole (inr l) = join_stars refl h (no_loss l)

  StarIn-shorter : (m c : ℕ) (t : Text) (star : Star) → StarIn k m (c ∷ t) star → StarIn k m t star
  StarIn-shorter m c t none s = tt
  StarIn-shorter m c t (some (sp, st)) s = omega arith

  one-Inv :
      {f m q c : ℕ} {p t : Text} {star : Star}
      → (q == b'*') ≡ false
      → Inv k (suc f) m (q ∷ p) (c ∷ t) star
      → Inv k f m p t star
  one-Inv {m = m} {c = c} {t = t} {star = star} h i = record {
    no_loss = λ l. pass_one t refl h (i.no_loss l);
    in_star = StarIn-shorter m c t star i.in_star;
    in_pattern = omega arith;
    in_text = omega arith;
    fuel = omega arith;
  }

  one_iff :
      {q c : ℕ} {p t : Text} (star : Star)
      → (q == b'*') ≡ false
      → (q == b'?' || q == c) ≡ true
      → Question p t star ↔ Question (q ∷ p) (c ∷ t) star
  one_iff {q} {c} {p} {t} star h a = (fwd, bwd)
    where
      fwd : Question p t star → Question (q ∷ p) (c ∷ t) star
      fwd (inl d) = inl (one (rw (h, a) refl) d)
      fwd (inr l) = inr l

      bwd : Question (q ∷ p) (c ∷ t) star → Question p t star
      bwd (inl d) = inl (one_inv h d).1
      bwd (inr l) = inr l

  match_loop-Answers :
      (f m : ℕ) (p t : Text) (star : Star)
      → Inv k f m p t star
      → Answers (Question p t star) (match_loop f p t star)
  unfolding match_loop
  match_loop-Answers zero m p t star i = absurd (omega arith)
  match_loop-Answers (suc f) m p [] star i =
      Answers-test (only_stars p)
        (λ e. inl (only_stars→Matches p e), λ g. Matches→only_stars (at_end g))
    where
      at_end : Question p [] star → Matches p []
      at_end (inl d) = d
      at_end (inr l) = star_at_end refl (i.no_loss l)
  match_loop-Answers (suc f) m [] (c ∷ t) star i =
      backtrack-Answers f m c [] t star (match_loop-Answers f) i λ d. elim d [ ]
  match_loop-Answers (suc f) m (q ∷ p) (c ∷ t) star i = elim (Bool-cases (q == b'*')) [
    | inl h ↦
        rw (h, match_loop)
          (Answers-map (match_loop f p (c ∷ t) (some (p, c ∷ t))) (star_iff star h i.no_loss)
            (match_loop-Answers f m p (c ∷ t) (some (p, c ∷ t)) (star-Inv i)))
    | inr h ↦ elim (Bool-cases (q == b'?' || q == c)) [
      | inl a ↦
          rw (h, match_loop)
            (rw a (
              Answers-map (match_loop f p t star) (one_iff star h a)
                (match_loop-Answers f m p t star (one-Inv h i))))
      | inr a ↦
          rw (h, match_loop)
            (rw a (
              backtrack-Answers f m c (q ∷ p) t star (match_loop-Answers f) i
                λ d. not_accepted h a d))
    ]
  ]

-- `match_pattern` ends within its fuel and never steps past the end of a text. It answers true exactly
-- on the names that match.
pub match_pattern-Answers :
    (pattern text : Text) → Answers (Matches pattern text) (match_pattern pattern text)
unfolding match_pattern
match_pattern-Answers pattern text =
    Answers-map (match_pattern pattern text)
      (λ g. elim g [ inl d ↦ d | inr l ↦ absurd l ], λ d. inl d)
      (match_loop-Answers (length pattern) _ (length text) pattern text none (record {
        no_loss = λ l. absurd l;
        in_star = tt;
        in_pattern = omega arith;
        in_text = omega arith;
        fuel = grind arith;
      }))
