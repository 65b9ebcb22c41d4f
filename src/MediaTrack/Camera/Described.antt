-- ===== src/MediaTrack/Camera/Described.antt =====
-- What the camera of src/auto_configurer/impl/opencv_camera_mt_handler.cpp is configured with.
use mosaic_core.Base.{
  ◌≡◌, refl, ◌∙◌, ap, sym, String, ◌==◌, Option, none, some, if◌then◌else◌, arith, Bool-cases, inl,
  inr,
}
use text.Mathlib.TextEquality.{eq_iff}
use mosaic_core.Base.Int.{pos}
use mosaic_core.Base.Dict.{lookup, lookup-insert}
use mosaic_core.Exec.{Outcome, ok, throws, Exec, pure, ◌>>=◌, fault, continue}
use mosaic_core.Exec.Stoi.{stoi}
use mosaic_core.Config.{ConnectorConfig}
use mosaic_core.MediaTrack.Camera.Configure.{
  Settings, text_or_empty, put_missing, param, param_or, configure,
}

-- What a parameter says, where an empty text is as good as none.
abbrev pub text_of : String → ConnectorConfig → String
text_of key c = text_or_empty (lookup key c.params)

abbrev pub setting : {A : Type 0} → (String → Outcome A) → A → String → Outcome A
setting convert otherwise text = if text == "" then ok otherwise else convert text

-- The same texts under all keys, and the same label.
abbrev Same : ConnectorConfig → ConnectorConfig → Type 0
Same c d = ((key : String) → text_of key d ≡ text_of key c) × (d.label ≡ c.label)

text_of-put_missing :
    (key other : String) (v : Option String) (c : ConnectorConfig)
    → lookup key c.params ≡ v
    → text_of other (put_missing key v c) ≡ text_of other c
text_of-put_missing key other (some t) c e = refl
text_of-put_missing key other none c e =
    ground (arith, lookup-insert key other "" c.params, eq_iff key other, e)

label-put_missing :
    (key : String) (v : Option String) (c : ConnectorConfig) → (put_missing key v c).label ≡ c.label
label-put_missing key none c = refl
label-put_missing key (some t) c = refl

-- Reading a parameter keeps every text and the label.
param-Same : (key : String) (c d : ConnectorConfig) → Same c d → Same c (param key d).1
unfolding param
param-Same key c d same = (
  (λ other. text_of-put_missing key other (lookup key d.params) d refl ∙ same.0 other),
  label-put_missing key (lookup key d.params) d ∙ same.1,
)

-- A parameter is read from the configuration as it came in, and reading it keeps every text.
param_or_lem :
    {A : Type 0} (key : String) (convert : String → Outcome A) (otherwise : A)
    (c d : ConnectorConfig)
    → Same c d
    → ((param_or key convert otherwise d).0 ≡ setting convert otherwise (text_of key c))
      × Same c (param_or key convert otherwise d).1
unfolding param_or param ◌>>=◌ pure
param_or_lem key convert otherwise c d same =
    let once = param-Same key c d same in
    let twice = param-Same key c (param key d).1 once in
    let same_test = ap (λ t. t == "") (sym (same.0 key)) in
    elim (Bool-cases (text_of key d == "")) [
      | inl e ↦ rw e (rw (same_test ∙ e) (refl, once))
      | inr e ↦ rw e (rw (same_test ∙ e) (ap convert (once.0 key), twice))
    ]

abbrev pub if_ok : {A B : Type 0} → Outcome A → (A → Outcome B) → Outcome B
if_ok (ok a) f = f a
if_ok (throws e) f = throws e
if_ok fault f = fault

-- The settings that a configuration describes.
abbrev pub described :
    {Float : Type 0} → (String → Outcome Float) → Float → ConnectorConfig → Outcome (Settings Float)
described stof thirty c = if_ok (setting stof thirty (text_of "fps" c)) λ frame_rate.
    if_ok (setting stoi (pos 0) (text_of "camera_id" c)) λ camera_id.
      if_ok (setting stoi (pos 640) (text_of "width" c)) λ width.
        if_ok (setting stoi (pos 480) (text_of "height" c)) λ height. ok (record {
          track_name = c.label;
          frame_rate = frame_rate;
          camera_id = camera_id;
          width = width;
          height = height;
        })

-- An action whose outcome is that of a reference, and which keeps the texts, goes on as the reference does.
chained :
    {A B : Type 0} (m : Exec ConnectorConfig A) (k : A → Exec ConnectorConfig B) (o : Outcome A)
    (r : A → Outcome B) (c d : ConnectorConfig)
    → ((m d).0 ≡ o) × Same c (m d).1
    → ((a : A) (e : ConnectorConfig) → Same c e → (k a e).0 ≡ r a)
    → ((m >>= k) d).0 ≡ if_ok o r
unfolding ◌>>=◌
chained {A = A} m k o r c d (e, kept) next = rw (sym e) (after (m d).0)
  where
    after : (x : Outcome A) → (continue x k (m d).1).0 ≡ if_ok x r
    after (ok a) = next a (m d).1 kept
    after (throws s) = refl
    after fault = refl

read_next :
    {A B : Type 0} (key : String) (convert : String → Outcome A) (otherwise : A)
    (k : A → Exec ConnectorConfig B) (r : A → Outcome B) (c d : ConnectorConfig)
    → Same c d
    → ((a : A) (e : ConnectorConfig) → Same c e → (k a e).0 ≡ r a)
    → ((param_or key convert otherwise >>= k) d).0
      ≡ if_ok (setting convert otherwise (text_of key c)) r
read_next key convert otherwise k r c d same =
    chained (param_or key convert otherwise) k _ r c d (param_or_lem key convert otherwise c d same)

-- `Configure` makes the settings that the configuration describes, or fails as the first setting that
-- cannot be read does: a parameter that is missing or empty has its default, and the empty texts
-- that the reads insert change nothing.
pub configure_lem :
    {Float : Type 0} (stof : String → Outcome Float) (thirty : Float) (c : ConnectorConfig)
    → (configure stof thirty c).0 ≡ described stof thirty c
unfolding configure
configure_lem stof thirty c =
    read_next "fps" stof thirty _ _ c c ((λ key. refl), refl)
      λ frame_rate c1 same1. read_next "camera_id" stoi (pos 0) _ _ c c1 same1 λ camera_id c2 same2.
        read_next "width" stoi (pos 640) _ _ c c2 same2 λ width c3 same3.
          read_next "height" stoi (pos 480) _ _ c c3 same3 λ height c4 same4. rw (same4.1) refl
