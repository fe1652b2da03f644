-- ===== src/Federation/Signature.antt =====
-- inbox/worker.go: Verify, and what a worker does with a request. The verifier of httpsig, the
-- resolver's public key and its decoding (pem, x509) are parameters, as are the names of the two
-- algorithms of httpsig that are tried beside the stated one.
pub mod Algorithms
use shig.Common.{
  Text, Text-discrete, ite, Bool, true, false, if◌then◌else◌, List, [], ◌∷◌, Option, none, some,
}
use shig.Streams.{Result, ok, err, panicked, other_error, ◌>>=◌}
use shig.Federation.{Url, Urls, or_fail}
use shig.Federation.Strings.{codes, split, trim}

pub record PublicKey : Type 0 where
  pub owner : Option Url
  pub pem : Option Text

-- httpsig.Verifier: whether the request is signed by a key with an algorithm
pub record Verifier (Key : Type 0) : Type 0 where
  pub key_id : Text
  pub verifies : Key → Text → Bool

pub record SignedRequest (Key : Type 0) : Type 0 where
  pub verifier : Option (Verifier Key)
  pub signature : Text

value_of : List Text → Result Text
value_of [] = err panicked
value_of (v ∷ vs) = ok v

-- kv[0] and kv[1]: the index 1 is out of range where the component has no "=".
component_value : Result Text → List Text → Result Text
unfolding value_of
component_value rest [] = rest
component_value rest (k ∷ vs) = ite (Text-discrete k (codes "algorithm")) (value_of vs) rest

unfoldable pub find_algorithm : List Text → Result Text
unfolding component_value
find_algorithm [] = ok []
find_algorithm (c ∷ cs) = let rest = find_algorithm cs in component_value rest (split b'=' c)

unfoldable pub tried : Text → List Text → Bool
tried a [] = false
tried a (b ∷ bs) = let rest = tried a bs in ite (Text-discrete a b) true rest

-- The loop over algos: `failures` are the keys of triedAlgos.
unfoldable pub try_algorithms : (Text → Bool) → List Text → List Text → Bool
unfolding tried
try_algorithms verifies [] failures = false
try_algorithms verifies (a ∷ as') failures = elim (tried a failures) [
  | true ↦ try_algorithms verifies as' failures
  | false ↦ elim (verifies a) [ true ↦ true | false ↦ try_algorithms verifies as' (a ∷ failures) ]
]

-- GetW3IDSecurityV1PublicKeyPem().Get(): without the property a nil pointer is read.
pem_of : Option Text → Result Text
pem_of none = err panicked
pem_of (some pem) = ok pem

non_empty : Text → Result Text
non_empty [] = err other_error
non_empty (c ∷ s) = ok (c ∷ s)

-- isBlockedDomain, isBlockedActor
unfoldable pub is_blocked_domain : Text → Bool
is_blocked_domain domain = false

unfoldable pub is_blocked_actor : Url → Bool
is_blocked_actor u = false

module _ {Key : Type 0} (urls : Urls) (resolve_key : Text → Option PublicKey)
    (decode_key : Text → Option Key) (sha256 sha512 : Text) where
  refuse_if : Bool → Result (Unit {0})
  refuse_if true = err other_error
  refuse_if false = ok tt

  -- Verify as far as the loop over the algorithms: the key, and the algorithm that is stated
  unfoldable pub key_and_algorithm : Verifier Key → SignedRequest Key → Result (Key × Text)
  unfolding non_empty pem_of is_blocked_domain is_blocked_actor refuse_if
  key_and_algorithm v r = do
    key_id ← or_fail (urls.parse_url v.key_id)
    signature ← non_empty r.signature
    stated ← find_algorithm (split b',' signature)
    algorithm ← non_empty (trim b'"' stated)
    public_key ← or_fail (resolve_key (urls.url_text key_id))
    owner ← or_fail public_key.owner
    _ ← refuse_if (is_blocked_domain owner.host)
    _ ← refuse_if (is_blocked_actor owner)
    pem ← pem_of public_key.pem
    key ← or_fail (decode_key pem)
    ok (key, algorithm)

  -- Verify, which the workers call with forceHttps false
  unfoldable pub verify : SignedRequest Key → Result Bool
  unfolding key_and_algorithm
  verify r = do
    v ← or_fail r.verifier
    found ← key_and_algorithm v r
    if try_algorithms (v.verifies found.0) (found.1 ∷ sha256 ∷ sha512 ∷ []) []
        then ok true
        else err other_error

  -- What a worker does after Verify: the state, and whether the worker panicked
  unfoldable pub after :
      {S A : Type 0} → (A → S → S × Result (Unit {0})) → A → S → Result Bool → S × Bool
  after resolve activity s (ok true) =
      let (s', e) = resolve activity s in (s', elim e [ err panicked ↦ true | _ ↦ false ])
  after resolve activity s (ok false) = (s, false)
  after resolve activity s (err panicked) = (s, true)
  after resolve activity s (err e) = (s, false)

  unfoldable pub handle :
      {S A : Type 0} → (A → S → S × Result (Unit {0})) → SignedRequest Key → A → S → S × Bool
  unfolding after
  handle resolve r activity s = after resolve activity s (verify r)
