-- ===== src/Examples/Encoding.antt =====
-- A small encoding in the manner of bincode: fields in order, a length before each text.
use canopee.Prelude.{
  drop-append_self, take-append_self, ℕ, zero, suc, Text, Bytes, Option, none, some, List, [], ◌∷◌,
  ◌++◌, ◌≡◌, refl, length, take, drop,
}
use mathlib.Core.List.{append_assoc, append-nil}
use mathlib.Core.Option
use canopee.Platform.{Codec}

-- A field's encoding, and its reader, which leaves the rest of the input.
pub record Field (A : Type 0) : Type 0 where
  pub put : A → Bytes
  pub get : Bytes → Option (A × Bytes)
  pub get-put : (a : A) (rest : Bytes) → get (put a ++ rest) ≡ some (a, rest)

abbrev get_number : Bytes → Option (ℕ × Bytes)
get_number [] = none
get_number (x ∷ xs) = some (x, xs)

abbrev pub number : Field ℕ
number = record { put = λ n. n ∷ []; get = get_number; get-put = λ n rest. refl }

abbrev get_text : Bytes → Option (Text × Bytes)
get_text [] = none
get_text (n ∷ xs) = some (take n xs, drop n xs)

pub text-get-put : (t rest : Bytes) → get_text (length t ∷ (t ++ rest)) ≡ some (t, rest)
text-get-put t rest = rw (take-append_self t rest, drop-append_self t rest)

abbrev pub text : Field Text
text = record { put = λ t. length t ∷ t; get = get_text; get-put = text-get-put }

module _ {A B : Type 0} where
  abbrev then_get : (Bytes → Option (B × Bytes)) → Option (A × Bytes) → Option ((A × B) × Bytes)
  then_get g none = none
  then_get g (some (a, rest)) = Option.map (λ (q : B × Bytes). ((a, q.0), q.1)) (g rest)

  pub pair-get-put :
      (f : Field A) (g : Field B) (a : A) (b : B) (rest : Bytes)
      → then_get g.get (f.get ((f.put a ++ g.put b) ++ rest)) ≡ some ((a, b), rest)
  pair-get-put f g a b rest =
      rw (append_assoc (f.put a) (g.put b) rest, f.get-put a (g.put b ++ rest), g.get-put b rest)

  abbrev pub pair : Field A → Field B → Field (A × B)
  pair f g = record {
    put = λ x. f.put x.0 ++ g.put x.1;
    get = λ b. then_get g.get (f.get b);
    get-put = λ x rest. pair-get-put f g x.0 x.1 rest;
  }

  abbrev convert : (A → B) → Option (A × Bytes) → Option (B × Bytes)
  convert from none = none
  convert from (some (a, rest)) = some (from a, rest)

  pub via-get-put :
      (f : Field A) (to : B → A) (from : A → B)
      → ((b : B) → from (to b) ≡ b)
      → (b : B) (rest : Bytes) → convert from (f.get (f.put (to b) ++ rest)) ≡ some (b, rest)
  via-get-put f to from h b rest = rw (f.get-put (to b) rest, h b)

  -- The encoding of `B` by way of `A`.
  abbrev pub via : Field A → (to : B → A) (from : A → B) → ((b : B) → from (to b) ≡ b) → Field B
  via f to from h = record {
    put = λ b. f.put (to b);
    get = λ s. convert from (f.get s);
    get-put = via-get-put f to from h;
  }

module _ {A : Type 0} where
  abbrev get_option : (Bytes → Option (A × Bytes)) → Bytes → Option (Option A × Bytes)
  get_option g [] = none
  get_option g (zero ∷ s) = some (none, s)
  get_option g (suc n ∷ s) = Option.map (λ (q : A × Bytes). (some q.0, q.1)) (g s)

  abbrev put_option : (A → Bytes) → Option A → Bytes
  put_option f none = 0 ∷ []
  put_option f (some a) = 1 ∷ f a

  pub option-get-put :
      (f : Field A) (a : Option A) (rest : Bytes)
      → get_option f.get (put_option f.put a ++ rest) ≡ some (a, rest)
  option-get-put f none rest = refl
  option-get-put f (some a) rest = rw (f.get-put a rest)

  abbrev pub option : Field A → Field (Option A)
  option f = record { put = put_option f.put; get = get_option f.get; get-put = option-get-put f }

  abbrev get_list : (Bytes → Option (A × Bytes)) → ℕ → Bytes → Option (List A × Bytes)
  get_list g zero s = some ([], s)
  get_list g (suc n) s = elim (g s) [
    | none ↦ none
    | some (a, rest) ↦ Option.map (λ (q : List A × Bytes). (a ∷ q.0, q.1)) (get_list g n rest)
  ]

  abbrev get_counted : (Bytes → Option (A × Bytes)) → Bytes → Option (List A × Bytes)
  get_counted g [] = none
  get_counted g (n ∷ s) = get_list g n s

  abbrev put_list : (A → Bytes) → List A → Bytes
  put_list f [] = []
  put_list f (a ∷ l) = f a ++ put_list f l

  pub list-get-put :
      (f : Field A) (l : List A) (rest : Bytes)
      → get_list f.get (length l) (put_list f.put l ++ rest) ≡ some (l, rest)
  list-get-put f [] rest = refl
  list-get-put f (a ∷ l) rest = rw (
    append_assoc (f.put a) (put_list f.put l) rest,
    f.get-put a (put_list f.put l ++ rest),
    list-get-put f l rest,
  )

  abbrev pub list : Field A → Field (List A)
  list f = record {
    put = λ l. length l ∷ put_list f.put l;
    get = get_counted f.get;
    get-put = list-get-put f;
  }

  -- All the input is the value, and what follows it is ignored.
  pub get-put_whole :
      (f : Field A) (a : A) → Option.map (λ (q : A × Bytes). q.0) (f.get (f.put a)) ≡ some a
  get-put_whole f a = rw (← append-nil (f.put a), f.get-put a [])

  abbrev pub to_codec : Field A → Codec A
  to_codec f = record {
    serialize = f.put;
    deserialize = λ s. Option.map (λ (q : A × Bytes). q.0) (f.get s);
    deserialize-serialize = get-put_whole f;
  }
