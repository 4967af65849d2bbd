-- ===== src/Handlers/Notify/Arn.antt =====
-- `stripArn` of handlers/job_status_notification.go.
use Prim.Native.Char.{Char}
use text.Mathlib.TextLemmas.{nil-append, cons-append}
use batchiepatchie.Prelude.{String, false, ◌≡◌, ◌≢◌, refl, ◌∙◌, ap, none, some, arith}
use batchiepatchie.Prelude.Text.{concat, slash, newline, has}
use batchiepatchie.Handlers.Notify.{group, last_part, arn_match, strip_arn, or_whole}

no_slash : (s : String) → has slash s ≡ false → last_part s ≡ none
unfolding last_part
no_slash String.[] h = refl
no_slash (String.◌∷◌ c s) h = rw (no_slash s (ground arith)) (ground arith)

group_lem : (name : String) → name ≢ "" → group name ≡ some name
group_lem String.[] n = absurd (n refl)
group_lem (String.◌∷◌ c s) n = refl

at_slash :
    (name : String)
    → has slash name ≡ false
    → name ≢ ""
    → last_part (String.◌∷◌ "/" name) ≡ some name
unfolding last_part
at_slash name h n = rw (no_slash name h) (group_lem name n)

last_part-cons :
    (c : Char) (s found : String)
    → last_part s ≡ some found
    → last_part (String.◌∷◌ c s) ≡ some found
unfolding last_part
last_part-cons c s found h = rw h

last_part-after :
    (path name : String)
    → has slash name ≡ false
    → name ≢ ""
    → last_part (concat path (concat "/" name)) ≡ some name
unfolding last_part
last_part-after String.[] name h n =
    rw (nil-append (concat "/" name))
      (rw (cons-append "/" "" name, nil-append name) (at_slash name h n))
last_part-after (String.◌∷◌ c s) name h n =
    ap last_part (cons-append c s (concat "/" name))
    ∙ last_part-cons c (concat s (concat "/" name)) name (last_part-after s name h n)

-- The name of a queue, without slashes and newlines and not empty, is what is left of its ARN,
-- whatever the account and the path in the ARN.
pub strip_arn_lem :
    (path name : String)
    → has slash name ≡ false
    → name ≢ ""
    → has newline (concat path (concat "/" name)) ≡ false
    → strip_arn (String.◌∷◌ "a" (String.◌∷◌ "r" (String.◌∷◌ "n" (concat path (concat "/" name)))))
      ≡ name
unfolding strip_arn arn_match
strip_arn_lem path name h n l = rw l (
    ap (or_whole (String.◌∷◌ "a" (String.◌∷◌ "r" (String.◌∷◌ "n" (concat path (concat "/" name))))))
      (last_part-after path name h n))
