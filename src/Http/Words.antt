-- ===== src/Http/Words.antt =====
-- How parse_request reads the words of the first line.
use market_bridge.Base.{
  ℕ, ◌≡◌, ◌≢◌, refl, ap, sym, append-nil, ◌∙◌, true, false, [], ◌∷◌, ◌++◌, Bytes, codes, All, arith,
}
use market_bridge.Http.Message.{request_line}
use market_bridge.Http.Parse.{is_space, skip_space, split_word, read_word}

-- No white space, and at least one byte.
abbrev pub IsSolid : Bytes → Type 0
IsSolid w = All (λ c. is_space c ≡ false) w

pub record IsWord (w : Bytes) : Type 0 where
  pub solid : IsSolid w
  pub nonempty : w ≢ []

skip_space-append : (w rest : Bytes) → IsWord w → skip_space (w ++ rest) ≡ w ++ rest
unfolding skip_space
skip_space-append [] rest h = absurd (h.nonempty refl)
skip_space-append (c ∷ w) rest h = ground (arith, h.solid.0)

split_word-append : (w rest : Bytes) → IsSolid w → split_word (w ++ b' ' ∷ rest) ≡ (w, b' ' ∷ rest)
unfolding split_word
split_word-append [] rest h = refl
split_word-append (c ∷ w) rest h = ground (arith, split_word-append w rest h.1)

split_word_whole : (w : Bytes) → IsSolid w → split_word w ≡ (w, [])
unfolding split_word
split_word_whole [] h = refl
split_word_whole (c ∷ w) h = ground (arith, split_word_whole w h.1)

pub read_word-append : (w rest : Bytes) → IsWord w → read_word (w ++ b' ' ∷ rest) ≡ (w, b' ' ∷ rest)
unfolding read_word
read_word-append w rest h =
    rw (skip_space-append w (b' ' ∷ rest) h) (split_word-append w rest h.solid)

pub read_word-IsWord : (w : Bytes) → IsWord w → read_word w ≡ (w, [])
unfolding read_word
read_word-IsWord w h =
    ap (λ s. split_word (skip_space s)) (sym (append-nil w))
    ∙ ap split_word (skip_space-append w [] h ∙ append-nil w)
    ∙ split_word_whole w h.solid

pub read_word_blank : (rest : Bytes) → read_word (b' ' ∷ rest) ≡ read_word rest
unfolding read_word
read_word_blank rest = refl

-- The words of a request line.
pub read_word-request_line :
    (m t v : Bytes)
    → IsWord m
    → IsWord t
    → IsWord v
    → (read_word (request_line m t v) ≡ (m, b' ' ∷ (t ++ (b' ' ∷ v))))
      × (read_word (b' ' ∷ (t ++ (b' ' ∷ v))) ≡ (t, b' ' ∷ v))
      × (read_word (b' ' ∷ v) ≡ (v, []))
read_word-request_line m t v hm ht hv = (
  read_word-append m _ hm,
  read_word_blank _ ∙ read_word-append t v ht,
  read_word_blank v ∙ read_word-IsWord v hv,
)

pub split_word-IsSolid : (s : Bytes) → IsSolid (split_word s).0
unfolding split_word
split_word-IsSolid [] = tt
split_word-IsSolid (c ∷ s) = ground (arith, split_word-IsSolid s)

pub read_word-IsSolid : (s : Bytes) → IsSolid (read_word s).0
unfolding read_word
read_word-IsSolid s = split_word-IsSolid (skip_space s)

-- White space includes the line ends.
pub IsSolid-ne : (d : ℕ) (w : Bytes) → is_space d ≡ true → IsSolid w → All (λ x. x ≢ d) w
IsSolid-ne d [] e h = tt
IsSolid-ne d (c ∷ w) e h = ((λ p. cc (ap is_space p)), IsSolid-ne d w e h.1)

pub get-IsWord : IsWord (codes "GET")
unfolding is_space
get-IsWord = record { solid = (refl, (refl, (refl, tt))); nonempty = λ e. cc }

pub http-IsWord : IsWord (codes "HTTP/1.1")
unfolding is_space
http-IsWord = record {
  solid = (refl, (refl, (refl, (refl, (refl, (refl, (refl, (refl, tt))))))));
  nonempty = λ e. cc;
}
