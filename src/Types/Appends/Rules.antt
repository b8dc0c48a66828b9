-- ===== src/Types/Appends/Rules.antt =====
-- The rules by which an encoder appends to the buffer.
use sub_script.Prelude.{
  ℕ, Bool, true, false, List, [], ◌++◌, ◌≡◌, refl, ◌∙◌, append-nil, append_assoc, if◌then◌else◌,
  Result, ok, err, Error, arith,
}
use sub_script.Types.Meta.{EncodedArgs, Enc, emit, fail, continue, ◌>>◌, in_compact}
use sub_script.Types.Encode.{done}

-- The buffer only grows, and the compact flag is as it was, whether or not there is an error.
pub record Appends (e : Enc) : Type 0 where
  pub added : EncodedArgs → List ℕ
  pub grows : (d : EncodedArgs) → (e d).0.data_bytes ≡ d.data_bytes ++ added d
  pub flag : (d : EncodedArgs) → (e d).0.compact ≡ d.compact

pub Appends-emit : (bs : List ℕ) → Appends (emit bs)
unfolding emit
Appends-emit bs = record { added = λ d. bs; grows = λ d. refl; flag = λ d. refl }

pub Appends-fail : (e : Error) → Appends (fail e)
unfolding fail
Appends-fail e = record { added = λ d. []; grows = λ d. rw append-nil; flag = λ d. refl }

pub Appends-done : Appends done
unfolding done
Appends-done = record { added = λ d. []; grows = λ d. rw append-nil; flag = λ d. refl }

pub Appends-test :
    (b : EncodedArgs → Bool) (m n : Enc)
    → Appends m
    → Appends n
    → Appends (λ d. if b d then m d else n d)
Appends-test b m n hm hn = record {
  added = λ d. if b d then hm.added d else hn.added d;
  grows = λ d. ground (arith, hm.grows d, hn.grows d);
  flag = λ d. ground (arith, hm.flag d, hn.flag d);
}

pub Appends-if : (b : Bool) (m n : Enc) → Appends m → Appends n → Appends (if b then m else n)
Appends-if true m n hm hn = hm
Appends-if false m n hm hn = hn

Appends-continue : (r : Result (Unit {0})) (n : Enc) → Appends n → Appends (continue r n)
unfolding continue
Appends-continue (ok _) n hn = hn
Appends-continue (err e) n hn = Appends-fail' e
  where
    Appends-fail' : (e : Error) → Appends (λ d. (d, err e))
    Appends-fail' e = record { added = λ d. []; grows = λ d. rw append-nil; flag = λ d. refl }

pub Appends-seq : (m n : Enc) → Appends m → Appends n → Appends (m >> n)
unfolding ◌>>◌
Appends-seq m n hm hn = record {
  added = λ d. hm.added d ++ (Appends-continue (m d).1 n hn).added (m d).0;
  grows = λ d. (Appends-continue (m d).1 n hn).grows (m d).0 ∙ (rw (hm.grows d) (rw append_assoc));
  flag = λ d. (Appends-continue (m d).1 n hn).flag (m d).0 ∙ hm.flag d;
}

pub Appends-in_compact : (m : Enc) → Appends m → Appends (in_compact m)
unfolding in_compact
Appends-in_compact m hm = record {
  added = λ d. hm.added (record d { compact = true });
  grows = λ d. hm.grows (record d { compact = true });
  flag = λ d. refl;
}
