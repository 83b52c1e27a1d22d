-- ===== src/Webrtc/Network/Redacted.antt =====
-- redactURL hides the credentials.
use o_camera_agent.Common.{
  ℕ, suc, ◌+◌, ◌≡◌, refl, sym, ap, ◌∙◌, false, ltb, [], ◌∷◌, ◌++◌, append_assoc, some, arith,
  length, take, drop, take-append, length-append,
}
use o_camera_agent.Common.Text.{Bytes, codes, index, has_prefix}
use o_camera_agent.Common.Split.{Lacks, last_index, last_index-append, drop-suc-append}
use o_camera_agent.Webrtc.Network.{redact_url}

index-scheme :
    (scheme s : Bytes)
    → Lacks b':' scheme
    → index (scheme ++ (codes "://" ++ s)) (codes "://") ≡ some (length scheme)
unfolding index has_prefix
index-scheme [] s h = refl
index-scheme (c ∷ scheme) s (hc, hs) = rw (index-scheme scheme s hs, hc) refl

redact_at :
    (raw : Bytes) (scheme sign : ℕ)
    → index raw (codes "://") ≡ some scheme
    → last_index b'@' raw ≡ some sign
    → ltb sign scheme ≡ false
    → redact_url raw ≡ take (scheme + 3) raw ++ codes "***@" ++ drop (sign + 1) raw
unfolding redact_url
redact_at raw scheme at h k l = rw (h, k, l, redact_url) refl

-- Of an address with credentials, whatever they are, the log shows the scheme, three stars, and what
-- stands behind the last "@".
pub redact_url-credentials :
    (scheme credentials host : Bytes)
    → Lacks b':' scheme
    → Lacks b'@' host
    → redact_url (scheme ++ (codes "://" ++ (credentials ++ b'@' ∷ host)))
      ≡ scheme ++ (codes "://***@" ++ host)
redact_url-credentials scheme credentials host h k =
    let before = scheme ++ (codes "://" ++ credentials) in
    let raw = scheme ++ (codes "://" ++ (credentials ++ b'@' ∷ host)) in
    let bracketed : raw ≡ before ++ b'@' ∷ host = simp append_assoc in
    let front : take (length scheme + 3) raw ≡ scheme ++ codes "://" =
      ap (λ n. take n raw) (sym (length-append scheme (codes "://")))
      ∙ ap (take (length (scheme ++ codes "://"))) (sym (append_assoc scheme (codes "://") _))
      ∙ take-append (scheme ++ codes "://") (credentials ++ b'@' ∷ host) in
    let one_more : length before + 1 ≡ suc (length before) = omega arith in
    let back : drop (length before + 1) raw ≡ host =
      ap (λ n. drop n raw) one_more
      ∙ ap (drop (suc (length before))) bracketed
      ∙ drop-suc-append before b'@' host in
    redact_at raw (length scheme) (length before)
      (index-scheme scheme (credentials ++ b'@' ∷ host) h)
      (ap (last_index b'@') bracketed ∙ last_index-append b'@' before host k)
      (ground (arith, length-append scheme (codes "://" ++ credentials)))
    ∙ ap (λ t. t ++ codes "***@" ++ drop (length before + 1) raw) front
    ∙ ap (λ t. (scheme ++ codes "://") ++ codes "***@" ++ t) back
    ∙ simp append_assoc
