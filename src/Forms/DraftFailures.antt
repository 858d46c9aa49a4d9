-- ===== src/Forms/DraftFailures.antt =====
-- What a draft save's 422 becomes: no message is lost, and a section's message reaches its input.
use restaurant_engine.Prelude.{
  ℕ, ◌≤◌, true, Option, none, some, List, [], ◌∷◌, ◌++◌, map, get_elem?, All, append_assoc, arith,
  all, not, ◌==◌, append-nil, if◌then◌else◌, ◌≡◌, refl, ap, subst,
}
use restaurant_engine.Prelude.Options.{or_else}
use restaurant_engine.Prelude.Text.{Text, codes, text_eq}
use restaurant_engine.Prelude.Splitting.{join, split-join, Lacks}
use restaurant_engine.Prelude.Decimal.{decimal, decimal-IsDigit, IsDigit}
use restaurant_engine.Js.{max_safe}
use restaurant_engine.Api.{ApiFailure, ErrorEnvelope, FieldError}
use restaurant_engine.Forms.Defs.{errors_of}
use restaurant_engine.Forms.DraftDefs.{
  NumberReader, Looked, own, MappedFieldError, MappedSaveFailure, path_of, push, push_all,
  whole_message, map_errors, map_draft_save_failure, theme_path, nested_path, tagged_path,
  section_path, is_type,
}

-- The texts of the last list, in their order, dealt to the other two.
pub data IsDealt : List Text → List Text → List Text → Type 0 where
  done : IsDealt [] [] []
  first : {xs ys zs : List Text} (z : Text) → IsDealt xs ys zs → IsDealt (z ∷ xs) ys (z ∷ zs)
  second : {xs ys zs : List Text} (z : Text) → IsDealt xs ys zs → IsDealt xs (z ∷ ys) (z ∷ zs)

deal_first :
    {xs ys zs : List Text} (z : Text)
    → IsDealt xs ys zs
    → IsDealt (xs ++ (z ∷ [])) ys (zs ++ (z ∷ []))
deal_first z done = first z done
deal_first z (first w d) = first w (deal_first z d)
deal_first z (second w d) = second w (deal_first z d)

deal_second :
    {xs ys zs : List Text} (z : Text)
    → IsDealt xs ys zs
    → IsDealt xs (ys ++ (z ∷ [])) (zs ++ (z ∷ []))
deal_second z done = second z done
deal_second z (first w d) = first w (deal_second z d)
deal_second z (second w d) = second w (deal_second z d)

abbrev pub messages : List MappedFieldError → List Text
messages fields = map (λ f. MappedFieldError.message f) fields

abbrev pub sent : List FieldError → List Text
sent errors = map (λ e. FieldError.message e) errors

abbrev Holds : MappedSaveFailure → List Text → Type 0
Holds mapped zs = IsDealt (messages mapped.fields) mapped.unmapped zs

messages-snoc :
    (fields : List MappedFieldError) (path : Looked) (message : Text)
    → messages (fields ++ (record { path = path; message = message } ∷ []))
      ≡ messages fields ++ (message ∷ [])
messages-snoc [] path message = refl
messages-snoc (f ∷ fs) path message =
    ap (λ r. MappedFieldError.message f ∷ r) (messages-snoc fs path message)

push-Holds :
    (message : Text) (o : Option Looked) (mapped : MappedSaveFailure) (zs : List Text)
    → Holds mapped zs
    → Holds (push message o mapped) (zs ++ (message ∷ []))
unfolding push
push-Holds message (some path) mapped zs h =
    rw (messages-snoc mapped.fields path message) (deal_first message h)
push-Holds message none mapped zs h = deal_second message h

push_all-Holds :
    (number : NumberReader) (section_types : List Text) (errors : List FieldError)
    (mapped : MappedSaveFailure) (zs : List Text)
    → Holds mapped zs
    → Holds (push_all number section_types mapped errors) (zs ++ sent errors)
unfolding push_all
push_all-Holds number section_types [] mapped zs h = rw (append-nil zs) h
push_all-Holds number section_types (e ∷ errors) mapped zs h =
    subst (λ ws. Holds (push_all number section_types mapped (e ∷ errors)) ws)
      (append_assoc zs (FieldError.message e ∷ []) (sent errors))
      (push_all-Holds number section_types errors
        (push (FieldError.message e) (path_of number section_types e) mapped)
        (zs ++ (FieldError.message e ∷ []))
        (push-Holds (FieldError.message e) (path_of number section_types e) mapped zs h))

-- What the backend said: the field errors' messages, or the envelope's own where it has none.
abbrev pub said_by : Option ErrorEnvelope → List FieldError → List Text
said_by envelope [] = whole_message envelope
said_by envelope (e ∷ errors) = sent (e ∷ errors)

map_errors-IsDealt :
    (number : NumberReader) (section_types : List Text) (envelope : Option ErrorEnvelope)
    (errors : List FieldError)
    → Holds (map_errors number section_types envelope errors) (said_by envelope errors)
unfolding map_errors
map_errors-IsDealt number section_types none [] = done
map_errors-IsDealt number section_types (some envelope) [] = second _ done
map_errors-IsDealt number section_types envelope (e ∷ errors) =
    push_all-Holds number section_types (e ∷ errors) _ [] done

-- Every message that the backend sent stands once, and in order, either at a control or among the
-- unmapped ones of the summary, and nothing else does.
pub map_draft_save_failure-IsDealt :
    (number : NumberReader) (failure : ApiFailure) (section_types : List Text)
    → IsDealt
        (messages (MappedSaveFailure.fields (map_draft_save_failure number failure section_types)))
        (MappedSaveFailure.unmapped (map_draft_save_failure number failure section_types))
        (said_by failure.envelope (errors_of failure.envelope))
unfolding map_draft_save_failure
map_draft_save_failure-IsDealt number failure section_types =
    map_errors-IsDealt number section_types failure.envelope (errors_of failure.envelope)

-- The path of an input in a section, as the backend spells it.
abbrev pub input_parts : ℕ → Text → Text → List Text → List Text
input_parts index tag next more =
    codes "body" ∷ codes "config" ∷ codes "sections" ∷ decimal index ∷ tag ∷ next ∷ more

abbrev pub input_path : ℕ → Text → Text → List Text → Text
input_path index tag next more = join b'.' (input_parts index tag next more)

digits-Lacks : (s : Text) → All IsDigit s → Lacks b'.' s
digits-Lacks [] h = tt
digits-Lacks (c ∷ s) (h, hs) = (omega arith, digits-Lacks s hs)

pub Lacks-of_all : (s : Text) → all (λ c. not (c == b'.')) s ≡ true → Lacks b'.' s
Lacks-of_all [] h = tt
Lacks-of_all (c ∷ s) h = (ground arith, Lacks-of_all s (ground arith))

parts-Lacks :
    (index : ℕ) (tag next : Text) (more : List Text)
    → All (Lacks b'.') (tag ∷ next ∷ more)
    → All (Lacks b'.') (input_parts index tag next more)
parts-Lacks index tag next more h = (
  Lacks-of_all (codes "body") refl,
  (
    Lacks-of_all (codes "config") refl,
    (
      Lacks-of_all (codes "sections") refl,
      (digits-Lacks (decimal index) (decimal-IsDigit index), h),
    ),
  ),
)

nested_path-input :
    (number : NumberReader) (section_types : List Text) (index : ℕ) (tag next : Text)
    (more : List Text)
    → index ≤ max_safe
    → nested_path number section_types (input_parts index tag next more)
      ≡ tagged_path section_types (some index) tag (next ∷ more)
unfolding nested_path text_eq
nested_path-input number section_types index tag next more h =
    ap (λ o. tagged_path section_types o tag (next ∷ more)) (number.read-decimal index h)

theme_path-input :
    (index : ℕ) (tag next : Text) (more : List Text)
    → theme_path (input_parts index tag next more) ≡ none
unfolding theme_path text_eq
theme_path-input index tag next more = refl

-- An error at an input of the section at a safe index, whose tag and further parts hold no dot,
-- reaches that input of that section if the section there is of the tagged type, and no control
-- otherwise.
pub path_of-input_path :
    (number : NumberReader) (section_types : List Text) (index : ℕ) (tag next : Text)
    (more : List Text) (code message : Text)
    → index ≤ max_safe
    → All (Lacks b'.') (tag ∷ next ∷ more)
    → path_of number section_types
        (record { field = input_path index tag next more; code = code; message = message })
      ≡ (if is_type (get_elem? section_types index) tag
          then some (own (section_path index (next ∷ more)))
          else none)
unfolding path_of tagged_path or_else
path_of-input_path number section_types index tag next more code message h k =
    rw
      (
        split-join b'.' (codes "body") _ (parts-Lacks index tag next more k),
        theme_path-input index tag next more,
      )
      (nested_path-input number section_types index tag next more h)
