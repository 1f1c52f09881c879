-- ===== src/Suite/Graph/Order.antt =====
-- What the colours mean while the search runs, and what each result of a visit says.
use mathlib.Core.Logic.Or
use mathlib.Core.List.{
  Mem, Subset, mem-append, mem-singleton, mem-cons, mem-cons_self, mem-cons_of_mem, not-mem-nil,
  mem-append_left, mem-append_right, Subset-refl, Subset-trans, Mem-prop,
}
use judgekit.Base.{
  ℕ, ◌<◌, ◌≡◌, refl, sym, ap, ◌∙◌, ◌≢◌, ◌⊎◌, inl, inr, Option, some, [], ◌∷◌, ◌++◌, Result, ok, err,
  ◌>>=◌, arith, if◌then◌else◌,
}
use judgekit.Base.Text.{Bytes, ◌==◌, ==_iff, Bytes-set, Bytes-discrete, ==-refl}
use judgekit.Base.Keys.{Keys}
use judgekit.Base.Maps.{find, put, find-put}
use judgekit.Suite.Graph.{
  Color, white, gray, black, GraphError, cycle, nil_evaluator, out_of_fuel, Colors, color_of,
  visit_each,
}

color_of-put :
    (k j : Bytes) (c : Color) (m : Colors)
    → color_of j (put k c m) ≡ (if k == j then c else color_of j m)
unfolding color_of
color_of-put k j c m = ground (arith, find-put k j c m)

color_of-put_self : (k : Bytes) (c : Color) (m : Colors) → color_of k (put k c m) ≡ c
color_of-put_self k c m = ground (arith, color_of-put k k c m, ==-refl k)

color_of-put_ne :
    (k j : Bytes) (c : Color) (m : Colors) → k ≢ j → color_of j (put k c m) ≡ color_of j m
color_of-put_ne k j c m n = ground (arith, color_of-put k j c m, ==_iff k j)

mem_init : {a x : Bytes} (xs : Keys) → Mem a (xs ++ x ∷ []) → a ≢ x → Mem a xs
mem_init xs m n =
    Or.elim Mem-prop (mem-append.0 m) (λ h. h)
      (λ last. absurd (n ((mem-singleton Bytes-set).0 last)))

mem_tail : {a x : Bytes} {xs : Keys} → Mem a (x ∷ xs) → a ≢ x → Mem a xs
mem_tail m n = Or.elim Mem-prop (mem-cons.0 m) (λ e. absurd (n e)) (λ h. h)

pub Color-cases : (c : Color) → (c ≡ white) ⊎ (c ≡ gray) ⊎ (c ≡ black)
Color-cases white = inl refl
Color-cases gray = inr (inl refl)
Color-cases black = inr (inr refl)

module _ (deps_of : Bytes → Option Keys) where
  -- `done`, latest first, holds each name behind all of its dependencies.
  abbrev pub IsSettled : Keys → Type 0
  IsSettled [] = Unit
  IsSettled (name ∷ done) =
      ((deps : Keys) → deps_of name ≡ some deps → Subset deps done) × IsSettled done

  -- `rank` puts each dependency below its dependent.
  abbrev pub IsRanked : (Bytes → ℕ) → Type 0
  IsRanked rank =
      (name : Bytes) (deps : Keys)
      → deps_of name ≡ some deps
      → (dep : Bytes) → Mem dep deps
      → rank dep < rank name

  -- The black names are those of `done`, the gray ones those of `path`.
  pub record Inv (path done : Keys) (colors : Colors) : Type 0 where
    pub black_done : (n : Bytes) → color_of n colors ≡ black → Mem n done
    pub done_black : (n : Bytes) → Mem n done → color_of n colors ≡ black
    pub gray_path : (n : Bytes) → color_of n colors ≡ gray → Mem n path
    pub path_gray : (n : Bytes) → Mem n path → color_of n colors ≡ gray
    pub settled : IsSettled done

  -- The search went on: more names are done, and `targets` are among them.
  pub record Grown (path done targets : Keys) (colors : Colors) : Type 0 where
    pub after : Keys
    pub inv : Inv path after colors
    pub kept : Subset done after
    pub reached : Subset targets after

  -- What a result says: an error is a cycle, since no rank exists.
  abbrev pub Outcome : (path done targets : Keys) → Result GraphError Colors → Type 0
  Outcome path done targets (ok colors) = Grown path done targets colors
  Outcome path done targets (err (cycle p n)) = (rank : Bytes → ℕ) → ¬ IsRanked rank
  Outcome path done targets (err _) = ⊥

  pub Inv-start : Inv [] [] []
  unfolding color_of find
  Inv-start = record {
    black_done = λ n b. cc;
    done_black = λ n m. absurd (not-mem-nil m);
    gray_path = λ n g. cc;
    path_gray = λ n m. absurd (not-mem-nil m);
    settled = tt;
  }

  pub Inv-enter :
      {path done : Keys} {colors : Colors} (name : Bytes)
      → color_of name colors ≡ white
      → Inv path done colors
      → Inv (path ++ name ∷ []) done (put name gray colors)
  Inv-enter {path} {done} {colors} name w i = record {
    black_done = λ n b. elim (Bytes-discrete name n) [
      | yes e ↦
          absurd
            (cc (color_of-put_self name gray colors, ap (λ m. color_of m (put name gray colors)) e))
      | no n≢ ↦ i.black_done n (cc (color_of-put_ne name n gray colors n≢))
    ];
    done_black = λ n m. elim (Bytes-discrete name n) [
      | yes e ↦ absurd (cc (i.done_black n m, ap (λ k. color_of k colors) e))
      | no n≢ ↦ cc (color_of-put_ne name n gray colors n≢, i.done_black n m)
    ];
    gray_path = λ n g. elim (Bytes-discrete name n) [
      | yes e ↦ mem-append_right path ((mem-singleton Bytes-set).1 (sym e))
      | no n≢ ↦
          mem-append_left (name ∷ []) (i.gray_path n (cc (color_of-put_ne name n gray colors n≢)))
    ];
    path_gray = λ n m. elim (Bytes-discrete name n) [
      | yes e ↦
          cc (color_of-put_self name gray colors, ap (λ k. color_of k (put name gray colors)) e)
      | no n≢ ↦
          color_of-put_ne name n gray colors n≢ ∙ i.path_gray n (mem_init path m (λ e. n≢ (sym e)))
    ];
    settled = i.settled;
  }

  pub Inv-leave :
      {path done : Keys} {colors : Colors} (name : Bytes)
      → ¬ Mem name path
      → ((deps : Keys) → deps_of name ≡ some deps → Subset deps done)
      → Inv (path ++ name ∷ []) done colors
      → Inv path (name ∷ done) (put name black colors)
  Inv-leave {path} {done} {colors} name new deps i = record {
    black_done = λ n b. elim (Bytes-discrete name n) [
      | yes e ↦ mem-cons.1 (Or.inl (sym e))
      | no n≢ ↦ mem-cons_of_mem name (i.black_done n (cc (color_of-put_ne name n black colors n≢)))
    ];
    done_black = λ n m. elim (Bytes-discrete name n) [
      | yes e ↦
          cc (color_of-put_self name black colors, ap (λ k. color_of k (put name black colors)) e)
      | no n≢ ↦
          color_of-put_ne name n black colors n≢ ∙ i.done_black n (mem_tail m (λ e. n≢ (sym e)))
    ];
    gray_path = λ n g. elim (Bytes-discrete name n) [
      | yes e ↦
          absurd (
            cc
              (color_of-put_self name black colors, ap (λ k. color_of k (put name black colors)) e))
      | no n≢ ↦
          mem_init path (i.gray_path n (cc (color_of-put_ne name n black colors n≢)))
            (λ e. n≢ (sym e))
    ];
    path_gray = λ n m. elim (Bytes-discrete name n) [
      | yes e ↦ absurd (new (rw e m))
      | no n≢ ↦
          color_of-put_ne name n black colors n≢ ∙ i.path_gray n (mem-append_left (name ∷ []) m)
    ];
    settled = (deps, i.settled);
  }

  weaken :
      (path before done targets more : Keys) (r : Result GraphError Colors)
      → Subset before done
      → Subset more (done ++ targets)
      → Outcome path done targets r
      → Outcome path before more r
  weaken path before done targets more (ok colors) h t g = record {
    after = g.after;
    inv = g.inv;
    kept = Subset-trans h g.kept;
    reached = λ n m. Or.elim Mem-prop (mem-append.0 (t n m)) (g.kept n) (g.reached n);
  }
  weaken path before done targets more (err (cycle p n)) h t g = g
  weaken path before done targets more (err (nil_evaluator n)) h t g = g
  weaken path before done targets more (err out_of_fuel) h t g = g

  pub bind-Outcome :
      (inner path done targets next : Keys) (r : Result GraphError Colors)
      (k : Colors → Result GraphError Colors)
      → Outcome inner done targets r
      → ((colors : Colors) → Grown inner done targets colors → Outcome path done next (k colors))
      → Outcome path done next (r >>= k)
  bind-Outcome inner path done targets next (ok colors) k g h = h colors g
  bind-Outcome inner path done targets next (err (cycle p n)) k g h = g
  bind-Outcome inner path done targets next (err (nil_evaluator n)) k g h = g
  bind-Outcome inner path done targets next (err out_of_fuel) k g h = g

  pub visit_each-Outcome :
      {path : Keys} (v : Bytes → Colors → Result GraphError Colors) (targets done : Keys)
      (c : Colors)
      → ((n : Bytes)
          → Mem n targets
          → (seen : Keys) (c : Colors) → Inv path seen c
          → Outcome path seen (n ∷ []) (v n c))
      → Inv path done c
      → Outcome path done targets (visit_each v targets c)
  unfolding visit_each
  visit_each-Outcome v [] done c each i = record {
    after = done;
    inv = i;
    kept = Subset-refl done;
    reached = λ n m. absurd (not-mem-nil m);
  }
  visit_each-Outcome {path} v (n ∷ ns) done c each i =
      bind-Outcome path path done (n ∷ []) (n ∷ ns) (v n c) (visit_each v ns)
        (each n mem-cons_self done c i)
        λ c' g.
          weaken path done g.after ns (n ∷ ns) (visit_each v ns c') g.kept
            (λ m h.
              Or.elim Mem-prop (mem-cons.0 h)
                (λ e. mem-append_left ns (g.reached m (mem-cons.1 (Or.inl e))))
                (mem-append_right g.after))
            (visit_each-Outcome v ns g.after c' (λ m h. each m (mem-cons_of_mem n h)) g.inv)
