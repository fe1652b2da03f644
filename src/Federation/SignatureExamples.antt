-- ===== src/Federation/SignatureExamples.antt =====
-- One input for each theorem on signatures and on the properties of a video.
use shig.Common.{
  Text, ℕ, ◌+◌, true, false, [], Option, some, ◌≡◌, refl, if◌then◌else◌, ◌||◌, ℕ_discrete,
  Text-discrete,
}
use shig.Streams.{Result, ok, err, other_error}
use shig.Federation.{Url, Urls}
use shig.Federation.Strings.{same, codes, split, trim}
use shig.Federation.Signature.{
  try_algorithms, PublicKey, Verifier, SignedRequest, find_algorithm, verify, handle,
}
use shig.Federation.Signature.Algorithms.{verify-any, handle-forged, handle-panics}

abbrev url : Text → Url
url path = record { scheme = []; host = codes "h"; path = path }

abbrev urls : Urls
urls = record { parse_url = λ t. some (url t); url_text = λ u. u.path }

-- A key is a number; the verifier accepts a key with "b".
abbrev verifier : Verifier ℕ
verifier = record { key_id = codes "k"; verifies = λ key a. same a (codes "b") }

abbrev forged : Verifier ℕ
forged = record { key_id = codes "k"; verifies = λ key a. false }

abbrev resolve_key : Text → Option PublicKey
resolve_key t = some (record { owner = some (url t); pem = some [] })

abbrev decode_key : Text → Option ℕ
decode_key t = some 1

abbrev signed : SignedRequest ℕ
signed = record { verifier = some verifier; signature = codes "x=1,algorithm=\"a\"" }

abbrev count_up : ℕ → ℕ → ℕ × Result (Unit {0})
count_up n s = (s + n, ok tt)

signed_states : find_algorithm (split b',' signed.signature) ≡ ok (codes "\"a\"")
unfolding find_algorithm split Text-discrete
signed_states = refl

stated_trimmed : trim b'"' (codes "\"a\"") ≡ codes "a"
unfolding trim
stated_trimmed = refl

verify-any_example :
    verify urls resolve_key decode_key (codes "b") (codes "c") signed
    ≡ (if false || (true || (false || false)) then ok true else err other_error)
verify-any_example =
    verify-any urls resolve_key decode_key (codes "b") (codes "c") signed verifier (url (codes "k"))
      (url (codes "k")) b'x' b'a' (codes "=1,algorithm=\"a\"") (codes "\"a\"") [] []
      (record { owner = some (url (codes "k")); pem = some [] }) 1 refl refl refl signed_states
      stated_trimmed refl refl refl refl

handle-forged_example :
    (handle urls resolve_key decode_key
      (codes "b")
      (codes "c")
      count_up
      (record signed { verifier = some forged })
      5
      7).0
    ≡ 7
handle-forged_example =
    handle-forged urls resolve_key decode_key (codes "b") (codes "c") count_up
      (record signed { verifier = some forged }) forged 5 7 refl (λ key a. refl)

-- A request that is verified is handled.
verified_is_handled :
    (handle urls resolve_key decode_key (codes "b") (codes "c") count_up signed 5 7).0 ≡ 12
unfolding handle verify find_algorithm split trim try_algorithms ℕ_discrete Text-discrete
verified_is_handled = refl

handle-panics_example :
    handle urls resolve_key decode_key
      (codes "b")
      (codes "c")
      count_up
      (record signed { signature = codes "algorithm,x" })
      5
      7
    ≡ (7, true)
handle-panics_example =
    handle-panics urls resolve_key decode_key (codes "b") (codes "c") count_up
      (record signed { signature = codes "algorithm,x" }) verifier (url (codes "k")) (codes "x") 5 7
      refl refl refl
