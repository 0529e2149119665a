-- ===== src/Pages/View.antt =====
-- What the pages of web/src/pages render: texts and controls in the order of the document, without
-- layout, class names and pictures. A button that shows only a picture is named after it, and a menu is
-- its entries, without headings.
use karadul.Base.{
  ℕ, zero, suc, ◌≡◌, ◌⊎◌, inl, inr, Bool, false, Option, none, some, List, [], ◌∷◌, ◌++◌, map, Text,
  codes,
}

-- What the pages ask of the language and the browser: `toLowerCase`; `formatDate`, `toLocaleString` and
-- `new Date(…).getTime()` on a printed time; the clock; and the arithmetic on doubles of Format.
pub record Platform : Type 0 where
  pub to_lower_case : Text → Text
  pub format_date : Text → Text
  pub print_time : Text → Text
  pub time_of : Text → ℕ
  pub now : ℕ
  pub log_ratio : ℕ → ℕ
  pub to_tenths : ℕ → ℕ → ℕ

-- What `useQuery` gives.
pub record Query (A : Type 0) : Type 0 where
  pub data_ : Option A
  pub is_loading : Bool
  pub error : Option Text

-- A control carries what it does: the event of a click, or of a new value. A button and a menu may be
-- disabled; a link is highlighted or not. A bar has its width.
pub data Item (E : Type 0) : Type 0 where
  caption badge : Text → Item E
  skeleton : Item E
  bar : Text → Item E
  button : Text → Bool → E → Item E
  menu : Text → Bool → List (Text × E) → Item E
  input : Text → Text → (Text → E) → Item E
  select : Text → List (Text × Text) → (Text → E) → Item E
  link : Text → Bool → E → Item E

-- The event of an entry of a menu, and of a value of a select.
abbrev pub EntryOffers : {E : Type 0} → List (Text × E) → E → Type 0
EntryOffers [] event = ⊥
EntryOffers ((label, e) ∷ entries) event = (e ≡ event) ⊎ EntryOffers entries event

abbrev pub OptionOffers : {E : Type 0} → List (Text × Text) → (Text → E) → E → Type 0
OptionOffers [] change event = ⊥
OptionOffers ((value, label) ∷ options) change event =
    (change value ≡ event) ⊎ OptionOffers options change event

-- The user can make the event with the item.
abbrev pub Offers : {E : Type 0} → Item E → E → Type 0
Offers (caption t) event = ⊥
Offers (badge t) event = ⊥
Offers skeleton event = ⊥
Offers (bar width) event = ⊥
Offers (button label disabled e) event = (disabled ≡ false) × (e ≡ event)
Offers (menu label disabled entries) event = (disabled ≡ false) × EntryOffers entries event
Offers (input placeholder value change) event = (t : Text) × (change t ≡ event)
Offers (select value options change) event = OptionOffers options change event
Offers (link title highlighted e) event = e ≡ event

-- The items have an enabled control that makes the event.
abbrev pub OfferedIn : {E : Type 0} → List (Item E) → E → Type 0
OfferedIn [] event = ⊥
OfferedIn (item ∷ items) event = Offers item event ⊎ OfferedIn items event

-- The items offer the event, and no open dialog keeps the user from it. `dialog` is what of the items
-- stands in an open dialog: a dialog of Radix is modal, so that the items behind it react to nothing.
abbrev pub ReachableIn : {E : Type 0} → List (Item E) → List (Item E) → E → Type 0
ReachableIn [] items event = OfferedIn items event
ReachableIn (item ∷ dialog) items event = OfferedIn items event × OfferedIn (item ∷ dialog) event

pub OfferedIn-append :
    {E : Type 0} (xs ys : List (Item E)) (event : E)
    → OfferedIn (xs ++ ys) event
    → OfferedIn xs event ⊎ OfferedIn ys event
OfferedIn-append [] ys event h = inr h
OfferedIn-append (x ∷ xs) ys event (inl h) = inl (inl h)
OfferedIn-append (x ∷ xs) ys event (inr h) = elim (OfferedIn-append xs ys event h) [
  | inl l ↦ inl (inr l)
  | inr r ↦ inr r
]

pub OfferedIn-append_left :
    {E : Type 0} (xs ys : List (Item E)) (event : E)
    → OfferedIn xs event
    → OfferedIn (xs ++ ys) event
OfferedIn-append_left (x ∷ xs) ys event (inl h) = inl h
OfferedIn-append_left (x ∷ xs) ys event (inr h) = inr (OfferedIn-append_left xs ys event h)
OfferedIn-append_left [] ys event h = elim h [ ]

pub OfferedIn-append_right :
    {E : Type 0} (xs ys : List (Item E)) (event : E)
    → OfferedIn ys event
    → OfferedIn (xs ++ ys) event
OfferedIn-append_right [] ys event h = h
OfferedIn-append_right (x ∷ xs) ys event h = inr (OfferedIn-append_right xs ys event h)

-- What the item at an index offers.
abbrev pub OfferedAt : {E : Type 0} → List (Item E) → ℕ → E → Type 0
OfferedAt [] i event = ⊥
OfferedAt (item ∷ items) zero event = Offers item event
OfferedAt (item ∷ items) (suc i) event = OfferedAt items i event

pub OfferedAt-OfferedIn :
    {E : Type 0} (items : List (Item E)) (i : ℕ) (event : E)
    → OfferedAt items i event
    → OfferedIn items event
OfferedAt-OfferedIn [] i event h = elim h [ ]
OfferedAt-OfferedIn (item ∷ items) zero event h = inl h
OfferedAt-OfferedIn (item ∷ items) (suc i) event h = inr (OfferedAt-OfferedIn items i event h)

-- An event that a part does not offer is offered by the other part.
pub OfferedIn-append_after :
    {E : Type 0} (xs ys : List (Item E)) (event : E)
    → (OfferedIn xs event → ⊥)
    → OfferedIn (xs ++ ys) event
    → OfferedIn ys event
OfferedIn-append_after xs ys event none_in h = elim (OfferedIn-append xs ys event h) [
  | inl here ↦ absurd (none_in here)
  | inr later ↦ later
]

pub OfferedIn-append_before :
    {E : Type 0} (xs ys : List (Item E)) (event : E)
    → (OfferedIn ys event → ⊥)
    → OfferedIn (xs ++ ys) event
    → OfferedIn xs event
OfferedIn-append_before xs ys event none_in h = elim (OfferedIn-append xs ys event h) [
  | inl here ↦ here
  | inr later ↦ absurd (none_in later)
]

-- `xs.map(f)` between tags: the items of the elements, one after another.
abbrev pub flat_map : {A B : Type 0} → (A → List B) → List A → List B
flat_map f [] = []
flat_map f (x ∷ xs) = f x ++ flat_map f xs

pub OfferedIn-flat_map :
    {A E : Type 0} (f : A → List (Item E)) (xs : List A) (event : E)
    → OfferedIn (flat_map f xs) event
    → (x : A) × OfferedIn (f x) event
OfferedIn-flat_map f [] event h = elim h [ ]
OfferedIn-flat_map f (x ∷ xs) event h = elim (OfferedIn-append (f x) (flat_map f xs) event h) [
  | inl here ↦ (x, here)
  | inr later ↦ OfferedIn-flat_map f xs event later
]

-- `Array.from({ length: n }).map(() => …)`
abbrev pub repeat : {B : Type 0} → ℕ → List B → List B
repeat zero xs = []
repeat (suc n) xs = xs ++ repeat n xs

pub OfferedIn-repeat :
    {E : Type 0} (n : ℕ) (xs : List (Item E)) (event : E)
    → OfferedIn (repeat n xs) event
    → OfferedIn xs event
OfferedIn-repeat zero xs event h = elim h [ ]
OfferedIn-repeat (suc n) xs event h = elim (OfferedIn-append xs (repeat n xs) event h) [
  | inl here ↦ here
  | inr later ↦ OfferedIn-repeat n xs event later
]

pub skeletons_inert :
    {E : Type 0} (n : ℕ) (event : E) → OfferedIn (repeat n (skeleton ∷ [])) event → ⊥
skeletons_inert n event h = elim (OfferedIn-repeat n (skeleton ∷ []) event h) [
  | inl l ↦ l
  | inr r ↦ r
]

abbrev pub captions : {E : Type 0} → List Text → List (Item E)
captions texts = map caption texts

pub captions_inert :
    {E : Type 0} (texts : List Text) (event : E) → OfferedIn (captions texts) event → ⊥
captions_inert [] event h = h
captions_inert (t ∷ texts) event (inl h) = h
captions_inert (t ∷ texts) event (inr h) = captions_inert texts event h

pub badges_inert :
    {E : Type 0} (texts : List Text) (event : E) → OfferedIn (map badge texts) event → ⊥
badges_inert [] event h = h
badges_inert (t ∷ texts) event (inl h) = h
badges_inert (t ∷ texts) event (inr h) = badges_inert texts event h

-- `ErrorAlert` (web/src/components/error-boundary.tsx)
abbrev pub error_alert : {E : Type 0} → Text → Text → Option E → List (Item E)
error_alert title message none = captions (title ∷ message ∷ [])
error_alert title message (some on_retry) =
    captions (title ∷ message ∷ []) ++ button (codes "Retry") false on_retry ∷ []

-- `ConnectionError`
abbrev pub connection_error : {E : Type 0} → Option E → List (Item E)
connection_error none =
    captions (codes "Connection Error" ∷ codes "Unable to connect to the Karadul API" ∷ [])
connection_error (some on_retry) =
    captions (codes "Connection Error" ∷ codes "Unable to connect to the Karadul API" ∷ [])
    ++ button (codes "Retry Connection") false on_retry ∷ []

-- `EmptyState` (web/src/components/empty-state.tsx)
abbrev pub empty_state : {E : Type 0} → Text → Text → Option (Text × E) → List (Item E)
empty_state title description none = captions (title ∷ description ∷ [])
empty_state title description (some (label, on_click)) =
    captions (title ∷ description ∷ []) ++ button label false on_click ∷ []

-- `DashboardSkeleton` (web/src/components/loading-skeletons.tsx)
abbrev pub dashboard_skeleton : {E : Type 0} → List (Item E)
dashboard_skeleton =
    repeat 2 (skeleton ∷ [])
    ++ (repeat 4 (repeat 4 (skeleton ∷ []))
        ++ (repeat 3 (skeleton ∷ [])
            ++ (repeat 2 (skeleton ∷ []) ++ repeat 4 (repeat 3 (skeleton ∷ [])))))

-- `TooltipButton` (web/src/components/tooltip-button.tsx): the button, and the text that is shown over it.
abbrev pub tooltip_button : {E : Type 0} → Text → Text → Bool → E → List (Item E)
tooltip_button tooltip label disabled on_click =
    button label disabled on_click ∷ caption tooltip ∷ []

-- An optional flag in a test.
abbrev pub is_true : Option Bool → Bool
is_true none = false
is_true (some b) = b

abbrev pub list_of {ℓ} : {A : Type ℓ} → Option (List A) → List A
list_of none = []
list_of (some xs) = xs

-- `text || other`
abbrev pub or_text : Option Text → Text → Text
or_text none other = other
or_text (some []) other = other
or_text (some (c ∷ s)) other = c ∷ s
