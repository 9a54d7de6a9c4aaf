-- ===== src/Tests/Pipeline.antt =====
-- The collector over the API, with a device that gives two bytes and a toy base64 that writes a byte as
-- so many letters.
use Prim.Native.Char.{Char, code}
use Prim.Native.String.{◌++◌ as str_append}
use Prim.Native.String.append.{nil, cons}
use text.Mathlib.TextEquality.{eq_iff}
use quantum_entropy_service.Common.{
  not, ◌&&◌, List, Bool, ◌||◌, ℕ, zero, suc, ◌+◌, ◌==◌, ◌≡◌, refl, ap, ap₂, sym, Bool-cases, inl,
  inr, ◌∙◌, arith, pos, true, false, if◌then◌else◌, String, str_eq, [], ◌∷◌, some, ok, message, err,
}
use quantum_entropy_service.Keymanager.Model.{Bytes}
use quantum_entropy_service.Quantum.Service.{Api}
use quantum_entropy_service.Collector.Scheduler.{Web}
use quantum_entropy_service.Server.Pipeline.{
  Link, get_from_api, Agrees, is_plain, render, value_of, PlainQuery, decimal_value,
}
use quantum_entropy_service.Tests.Pool.{scheduler}

abbrev letters : ℕ → String → String
letters zero s = String.◌∷◌ ";" s
letters (suc n) s = String.◌∷◌ "a" (letters n s)

abbrev write : Bytes → String
write [] = ""
write (b ∷ bytes) = letters b (write bytes)

abbrev read : ℕ → String → Bytes
read n String.[] = []
read n (String.◌∷◌ c s) = if code c == 97 then read (suc n) s else n ∷ read 0 s

read-letters : (n b : ℕ) (s : String) → read n (letters b s) ≡ (n + b) ∷ read 0 s
read-letters n zero s = ap (λ k. k ∷ read 0 s) (omega arith)
read-letters n (suc b) s = read-letters (suc n) b s ∙ ap (λ k. k ∷ read 0 s) (omega arith)

read-write : (bytes : Bytes) → read 0 (write bytes) ≡ bytes
read-write [] = refl
read-write (b ∷ bytes) = read-letters 0 b (write bytes) ∙ ap₂ (◌∷◌) (omega arith) (read-write bytes)

write-not_empty : (b : ℕ) (bytes : Bytes) → str_eq (write (b ∷ bytes)) "" ≡ false
write-not_empty b bytes = elim (Bool-cases (str_eq (write (b ∷ bytes)) "")) [
  | inl e ↦
      let clash : b ∷ bytes ≡ [] =
        sym (read-write (b ∷ bytes)) ∙ ap (read 0) ((eq_iff (write (b ∷ bytes)) "").0 e) in
      cc
  | inr e ↦ e
]

-- It counts the requests.
abbrev device : Api ℕ
device = record {
  get = λ url n. (ok (record { status_code = 200; body = "{}"; qrn = ok "0708" }), suc n);
  hex_decode = λ text. ok (7 ∷ 8 ∷ []);
  encode = write;
  decimal = λ n. "1024";
  entropy = record { sum256 = λ bytes. bytes; rand_read = λ n r. (err (message "no entropy"), r) };
}

-- What follows the question mark.
abbrev after_mark : String → String
after_mark String.[] = ""
after_mark (String.◌∷◌ c s) = let rest = after_mark s in if code c == 63 then s else rest

-- A text with a question mark at its end and none before.
abbrev ends : String → Bool
ends String.[] = false
ends (String.◌∷◌ c String.[]) = code c == 63
ends (String.◌∷◌ c (String.◌∷◌ d s)) = not (code c == 63) && ends (String.◌∷◌ d s)

after_mark-append : (s rest : String) → ends s ≡ true → after_mark (str_append s rest) ≡ rest
after_mark-append String.[] rest h = ground (arith, h)
after_mark-append (String.◌∷◌ c String.[]) rest h = rw (cons c "" rest, h) (nil rest)
after_mark-append (String.◌∷◌ c (String.◌∷◌ d s)) rest h =
    let others : (code c == 63) ≡ false = ground (arith, h) in
    let last : ends (String.◌∷◌ d s) ≡ true = ground (arith, h) in
    rw (cons c (String.◌∷◌ d s) rest, others) (after_mark-append (String.◌∷◌ d s) rest last)

abbrev is_mark : Char → Bool
is_mark c = code c == 61 || code c == 38

abbrev put : Char → List String → List String
put c [] = String.◌∷◌ c "" ∷ []
put c (word ∷ words) = String.◌∷◌ c word ∷ words

-- The texts between the marks "=" and "&".
abbrev words : String → List String
words String.[] = "" ∷ []
words (String.◌∷◌ c s) = let rest = words s in if is_mark c then "" ∷ rest else put c rest

abbrev pairs : List String → List (String × String)
pairs [] = []
pairs (name ∷ []) = []
pairs (name ∷ value ∷ rest) = (name, value) ∷ pairs rest

plain_not_mark : (c : Char) (s : String) → is_plain (String.◌∷◌ c s) ≡ true → is_mark c ≡ false
plain_not_mark c s h = ground (arith, h)

plain_rest : (c : Char) (s : String) → is_plain (String.◌∷◌ c s) ≡ true → is_plain s ≡ true
plain_rest c s h = ground (arith, h)

words-plain : (s : String) → is_plain s ≡ true → words s ≡ s ∷ []
words-plain String.[] h = refl
words-plain (String.◌∷◌ c s) h = rw (plain_not_mark c s h, words-plain s (plain_rest c s h)) refl

words-append :
    (s : String) (c : Char) (rest : String)
    → is_plain s ≡ true
    → is_mark c ≡ true
    → words (str_append s (String.◌∷◌ c rest)) ≡ s ∷ words rest
words-append String.[] c rest h m = rw (nil (String.◌∷◌ c rest), m) refl
words-append (String.◌∷◌ d s) c rest h m =
    rw
      (
        cons d s (String.◌∷◌ c rest),
        plain_not_mark d s h,
        words-append s c rest (plain_rest d s h) m,
      )
      refl

words-render :
    (params : List (String × String)) → PlainQuery params → pairs (words (render params)) ≡ params
words-render [] h = refl
words-render ((name, value) ∷ []) h =
    rw (words-append name "=" value h.0.0 refl, words-plain value h.0.1) refl
words-render ((name, value) ∷ p ∷ ps) h =
    rw
      (
        words-append name "=" (str_append value (String.◌∷◌ "&" (render (p ∷ ps)))) h.0.0 refl,
        words-append value "&" (render (p ∷ ps)) h.0.1 refl,
        words-render (p ∷ ps) h.1,
      )
      refl

abbrev link : Link
link = record {
  query = λ url. some (λ key. value_of key (pairs (words (after_mark url))));
  atoi = λ text. ok (pos (decimal_value 0 text));
  data_body = λ text. text;
  error_body = λ text. text;
  not_found_body = "404 page not found";
}

abbrev network : Web ℕ
network = record {
  get = get_from_api device "" link;
  data_of = λ body. ok body;
  decode = λ text. ok (read 0 text);
  encode = write;
  status_text = λ n. "500";
}

read_from :
    (params : List (String × String))
    → after_mark (str_append "" (str_append "/api/v1/quantum-random?" (render params)))
      ≡ render params
read_from params =
    ap after_mark (nil (str_append "/api/v1/quantum-random?" (render params)))
    ∙ after_mark-append "/api/v1/quantum-random?" (render params) refl

abbrev agrees : Agrees device "" link network scheduler
agrees = record {
  reads_data = λ text. refl;
  decodes = λ bytes. ap ok (read-write bytes);
  empty = refl;
  not_empty = write-not_empty;
  routed = λ params h. (
    λ key. value_of key (pairs (words (render params))),
    ap (λ text. some (λ key. value_of key (pairs (words text)))) (read_from params),
    λ key. ap (value_of key) (words-render params h),
  );
  reads_number = λ c text h. refl;
}
