-- ===== src/Api/Tests/Codec.antt =====
-- A codec whose payloads are read back: numbers in unary, with a byte for every construct, read from
-- the right.
use santokit.Base.{
  ℕ, zero, suc, ◌+◌, ◌%◌, ◌≡◌, refl, ap, ◌∙◌, [], ◌∷◌, some, arith, length, Text, Map, Values,
  IsBytes,
}
use santokit.Base.Int.{pos, negsuc}
use santokit.Base.Json.{Json, null, num, str, bool, arr, obj}
use santokit.Api.Token.{Codec, Carries, IsCarried}

-- What was read: a number, a text, a value and the pairs.
record Reader : Type 0 where
  number : ℕ
  text : Text
  value : Json
  pairs : Map Json

abbrev at : Json → Map Json → Reader
at v m = record { number = 0; text = []; value = v; pairs = m }

abbrev step : ℕ → Reader → Reader
step (suc zero) r = record r { number = suc r.number }
step (suc (suc zero)) r = record r { number = 0; text = r.number ∷ r.text }
step (suc (suc (suc zero))) r = record r { text = []; value = str r.text }
step (suc (suc (suc (suc zero)))) r = record r { number = 0; value = num (pos r.number) }
step (suc (suc (suc (suc (suc zero))))) r = record r { number = 0; value = num (negsuc r.number) }
step (suc (suc (suc (suc (suc (suc zero)))))) r = record r {
  text = [];
  value = null;
  pairs = (r.text, r.value) ∷ r.pairs;
}
step _ r = r

abbrev read : Text → Reader
read [] = at null []
read (b ∷ bytes) = step b (read bytes)

abbrev ones : ℕ → Text → Text
ones zero rest = rest
ones (suc n) rest = 1 ∷ ones n rest

abbrev chars : Text → Text → Text
chars [] rest = rest
chars (c ∷ s) rest = 2 ∷ ones c (chars s rest)

abbrev value_of : Json → Text → Text
value_of (str s) rest = 3 ∷ chars s rest
value_of (num (pos n)) rest = 4 ∷ ones n rest
value_of (num (negsuc n)) rest = 5 ∷ ones n rest
value_of _ rest = rest

abbrev write : Map Json → Text
write [] = []
write ((k, v) ∷ m) = 6 ∷ chars k (value_of v (write m))

module _ (t : Text) (v : Json) (m : Map Json) where
  read-ones :
      (n k : ℕ) (rest : Text)
      → read rest ≡ record { number = k; text = t; value = v; pairs = m }
      → read (ones n rest) ≡ record { number = n + k; text = t; value = v; pairs = m }
  read-ones zero k rest e =
      e ∙ ap (λ i. record { number = i; text = t; value = v; pairs = m }) (omega arith)
  read-ones (suc n) k rest e =
      rw (read-ones n k rest e)
        (ap (λ i. record { number = i; text = t; value = v; pairs = m }) (omega arith))

read-chars :
    (s rest : Text) (v : Json) (m : Map Json)
    → read rest ≡ at v m
    → read (chars s rest) ≡ record { number = 0; text = s; value = v; pairs = m }
read-chars [] rest v m e = e
read-chars (c ∷ s) rest v m e =
    rw (read-ones s v m c 0 (chars s rest) (read-chars s rest v m e))
      (ap (λ i. record { number = 0; text = i ∷ s; value = v; pairs = m }) (omega arith))

Carried : Json → Type 0
Carried = IsCarried (λ _. Unit {0})

read-value_of :
    (v : Json) (rest : Text) (m : Map Json)
    → Carried v
    → read rest ≡ at null m
    → read (value_of v rest) ≡ at v m
unfolding Carried
read-value_of (str s) rest m _ e = rw (read-chars s rest null m e) refl
read-value_of (num (pos n)) rest m _ e =
    rw (read-ones [] null m n 0 rest e) (ap (λ i. at (num (pos i)) m) (omega arith))
read-value_of (num (negsuc n)) rest m _ e =
    rw (read-ones [] null m n 0 rest e) (ap (λ i. at (num (negsuc i)) m) (omega arith))
read-value_of null rest m never e = absurd never
read-value_of (bool _) rest m never e = absurd never
read-value_of (arr _) rest m never e = absurd never
read-value_of (obj _) rest m never e = absurd never

read-write : (m : Map Json) → Values Carried m → read (write m) ≡ at null m
read-write [] _ = refl
read-write ((k, v) ∷ m) (c, cs) =
    rw (read-chars k (value_of v (write m)) v m (read-value_of v (write m) m c (read-write m cs)))
      refl

ones-IsBytes : (n : ℕ) (rest : Text) → IsBytes rest → IsBytes (ones n rest)
ones-IsBytes zero rest h = h
ones-IsBytes (suc n) rest h = (omega arith, ones-IsBytes n rest h)

chars-IsBytes : (s rest : Text) → IsBytes rest → IsBytes (chars s rest)
chars-IsBytes [] rest h = h
chars-IsBytes (c ∷ s) rest h = (omega arith, ones-IsBytes c (chars s rest) (chars-IsBytes s rest h))

value_of-IsBytes : (v : Json) (rest : Text) → IsBytes rest → IsBytes (value_of v rest)
value_of-IsBytes (str s) rest h = (omega arith, chars-IsBytes s rest h)
value_of-IsBytes (num (pos n)) rest h = (omega arith, ones-IsBytes n rest h)
value_of-IsBytes (num (negsuc n)) rest h = (omega arith, ones-IsBytes n rest h)
value_of-IsBytes null rest h = h
value_of-IsBytes (bool _) rest h = h
value_of-IsBytes (arr _) rest h = h
value_of-IsBytes (obj _) rest h = h

pub write-IsBytes : (m : Map Json) → IsBytes (write m)
write-IsBytes [] = tt
write-IsBytes ((k, v) ∷ m) =
    (omega arith, chars-IsBytes k _ (value_of-IsBytes v (write m) (write-IsBytes m)))

-- The signature is the sizes of the key and of the input.
abbrev pub toy : Codec
toy = record {
  hmac_sha256 = λ key input. length key % 256 ∷ length input % 256 ∷ [];
  hmac-IsBytes = λ key input. (omega arith, (omega arith, tt));
  marshal = write;
  marshal-IsBytes = write-IsBytes;
  unmarshal = λ bytes. some (read bytes).pairs;
  IsUtf8 = λ _. Unit {0};
}

pub toy-Carries : Carries toy
unfolding Carried
toy-Carries = record { unmarshal-marshal = λ m c. (m, rw (read-write m c) refl, λ k. refl) }
