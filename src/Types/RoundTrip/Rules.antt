-- ===== src/Types/RoundTrip/Rules.antt =====
-- An encoder and a reader that agree on a value, and the rules that build larger ones.
use sub_script.Prelude.{
  ℕ, Bool, true, List, [], ◌++◌, ◌≡◌, refl, append_assoc, append-nil, ok, ◌>>=◌,
}
use sub_script.Types.Meta.{EncodedArgs, Enc, Reader, emit, ◌>>◌, in_compact}
use sub_script.Types.Encode.{done}

abbrev pub args : List ℕ → Bool → EncodedArgs
args p c = record { data_bytes = p; compact = c }

-- `e` appends some bytes, and `d` reads from them the value, whatever follows.
pub record Codes {A : Type 0} (e : Enc) (d : Reader A) (c : Bool) (a : A) : Type 0 where
  pub written : List ℕ
  pub writes : (p : List ℕ) → e (args p c) ≡ (args (p ++ written) c, ok tt)
  pub reads : (rest : List ℕ) → d (written ++ rest) ≡ ok (a, rest)

module _ {A : Type 0} (c : Bool) where
  pub Codes-emit :
      (bs : List ℕ) (d : Reader A) (a : A)
      → ((rest : List ℕ) → d (bs ++ rest) ≡ ok (a, rest))
      → Codes (emit bs) d c a
  unfolding emit
  Codes-emit bs d a h = record { written = bs; writes = λ p. refl; reads = h }

  pub Codes-done :
      (d : Reader A) (a : A) → ((rest : List ℕ) → d rest ≡ ok (a, rest)) → Codes done d c a
  unfolding done
  Codes-done d a h = record { written = []; writes = λ p. rw append-nil; reads = h }

  pub Codes-in_compact :
      (e : Enc) (d : Reader A) (a : A) → Codes e d true a → Codes (in_compact e) d c a
  unfolding in_compact
  Codes-in_compact e d a h = record {
    written = h.written;
    writes = λ p. rw (h.writes p);
    reads = h.reads;
  }

module _ {A B : Type 0} (c : Bool) where
  pub Codes-seq :
      (e₁ e₂ : Enc) (d : Reader A) (k : A → Reader B) (a : A) (b : B)
      → Codes e₁ d c a
      → Codes e₂ (k a) c b
      → Codes (e₁ >> e₂) (λ input. d input >>= λ (x, rest). k x rest) c b
  unfolding ◌>>◌
  Codes-seq e₁ e₂ d k a b h₁ h₂ = record {
    written = h₁.written ++ h₂.written;
    writes = λ p. rw (h₁.writes p) (rw (h₂.writes (p ++ h₁.written)) (rw append_assoc));
    reads = λ rest. rw append_assoc (rw (h₁.reads (h₂.written ++ rest)) (h₂.reads rest));
  }

  -- The reader of a length or of a tag goes on with another reader.
  pub Codes-map :
      (e : Enc) (d : Reader A) (f : A → B) (a : A)
      → Codes e d c a
      → Codes e (λ input. d input >>= λ (x, rest). ok (f x, rest)) c (f a)
  Codes-map e d f a h = record {
    written = h.written;
    writes = h.writes;
    reads = λ rest. rw (h.reads rest);
  }

pub Codes-end :
    {A : Type 0} (c : Bool) (e : Enc) (d : Reader A) (a : A)
    → Codes e d c a
    → Codes (e >> done) d c a
unfolding ◌>>◌ done
Codes-end c e d a h = record { written = h.written; writes = λ p. rw (h.writes p); reads = h.reads }
