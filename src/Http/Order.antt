-- ===== src/Http/Order.antt =====
-- The order of header lines.
use market_bridge.Base.{◌≡◌, ◌≢◌, refl, sym, ap, subst, ◌∙◌, List, [], ◌∷◌, Bytes, All}
use market_bridge.Base.Map.{Map, insert, insert_all, insert_comm}
use market_bridge.Http.Message.{HttpRequest, message}
use market_bridge.Http.Parse.{parse_request, read_word}
use market_bridge.Http.Lines.{Lacks, IsHeader}
use market_bridge.Http.RoundTrip.{parse_request-message}
use mathlib.Core.List.{Permᴰ, Perm}
use mathlib.Core.Logic.{∥∥₁_elim}

-- No two entries have one name.
abbrev pub HasDistinctNames : Map → Type 0
HasDistinctNames [] = Unit
HasDistinctNames (e ∷ m) = All (λ (f : Bytes × Bytes). f.0 ≢ e.0) m × HasDistinctNames m

All-perm : {A : Type 0} (P : A → Type 0) {xs ys : List A} → Permᴰ xs ys → All P xs → All P ys
All-perm P Permᴰ.nil h = tt
All-perm P (Permᴰ.cons e p) h = (subst P e h.0, All-perm P p h.1)
All-perm P (Permᴰ.swap e f) h = (subst P f h.1.0, (subst P e h.0, h.1.1))
All-perm P (Permᴰ.trans p q) h = All-perm P q (All-perm P p h)

HasDistinctNames-perm : {m n : Map} → Permᴰ m n → HasDistinctNames m → HasDistinctNames n
HasDistinctNames-perm Permᴰ.nil h = tt
HasDistinctNames-perm (Permᴰ.cons {l₂ = ys} e p) h = (
  subst (λ a. All (λ (f : Bytes × Bytes). f.0 ≢ a.0) ys) e (All-perm _ p h.0),
  HasDistinctNames-perm p h.1,
)
HasDistinctNames-perm (Permᴰ.swap {a} {b} {a'} {b'} {l} e f) h =
    let swapped : HasDistinctNames (b ∷ a ∷ l) =
      ((λ (q : a.0 ≡ b.0). h.0.0 (sym q), h.1.0), (h.0.1, h.1.1)) in
    subst (λ x. HasDistinctNames (x ∷ b' ∷ l)) f
      (subst (λ y. HasDistinctNames (b ∷ y ∷ l)) e swapped)
HasDistinctNames-perm (Permᴰ.trans p q) h = HasDistinctNames-perm q (HasDistinctNames-perm p h)

insert_all-permuted :
    {es fs : Map} (m : Map) → Permᴰ es fs → HasDistinctNames es → insert_all m es ≡ insert_all m fs
unfolding insert_all
insert_all-permuted m Permᴰ.nil h = refl
insert_all-permuted m (Permᴰ.cons {a} {l₂ = fs} e p) h =
    insert_all-permuted (insert a.0 a.1 m) p h.1
    ∙ ap (λ (x : Bytes × Bytes). insert_all (insert x.0 x.1 m) fs) e
insert_all-permuted m (Permᴰ.swap {a} {b} {a'} {b'} {l} e f) h =
    ap (λ n. insert_all n l) (insert_comm b.0 b.1 a.0 a.1 m h.0.0)
    ∙ ap (λ (x : Bytes × Bytes). insert_all (insert a.0 a.1 (insert x.0 x.1 m)) l) f
    ∙ ap (λ (y : Bytes × Bytes). insert_all (insert y.0 y.1 (insert a'.0 a'.1 m)) l) e
insert_all-permuted m (Permᴰ.trans p q) h =
    insert_all-permuted m p h ∙ insert_all-permuted m q (HasDistinctNames-perm p h)

HttpRequest-IsSet : IsSet HttpRequest
HttpRequest-IsSet = hlevel

-- The order in which a client sends its headers does not matter: two messages whose header lines are a
-- permutation of each other, under distinct names, are read as the same request. The lines must be
-- well-formed, the first line hold no newline and the body no NUL.
pub parse_request-perm :
    (line : Bytes) (hs hs' : Map) (body : Bytes)
    → Lacks b'\n' line
    → All IsHeader hs
    → HasDistinctNames hs
    → Lacks 0 body
    → Perm hs hs'
    → parse_request (message line hs body) ≡ parse_request (message line hs' body)
parse_request-perm line hs hs' body l h d b p =
    ∥∥₁_elim p (HttpRequest-IsSet _ _) (λ (q : Permᴰ hs hs').
      parse_request-message line hs body l h b
      ∙ ap
          (λ (m : Map). record {
            method = (read_word line).0;
            target = (read_word (read_word line).1).0;
            version = (read_word (read_word (read_word line).1).1).0;
            headers = m;
            body = body;
          })
          (insert_all-permuted [] q d)
      ∙ sym (parse_request-message line hs' body l (All-perm IsHeader q h) b))
