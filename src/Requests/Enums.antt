-- ===== src/Requests/Enums.antt =====
-- backend/src/api/requests/enums.py. `value` of a status is the text that is stored and shown;
-- `rank` numbers the members in the order of the class, and gives the identity test `is`.
use kb_partners.Prelude.{
  ℕ, ◌≡◌, Bool, true, String, List, [], ◌∷◌, arith, eqb, if◌then◌else◌, false, ◌||◌,
}

pub data ChannelIn : Type 0 where
  web_form ai_chat support_ticket api messenger_inbound : ChannelIn

pub data Category : Type 0 where
  cleaning moving repair key_delivery other : Category

pub data RequestStatus : Type 0 where
  new classifying classified needs_review matching assigned : RequestStatus
  dispatched failed_dispatch accepted in_progress done : RequestStatus
  accepted_by_user dispute paid cancelled rejected : RequestStatus

pub data AccessLevel : Type 0 where
  public logged agent staff legal hr_restricted : AccessLevel

pub data AuthorType : Type 0 where
  requester operator partner system ai : AuthorType

pub data HistoryAction : Type 0 where
  created status_changed message_added classified assigned rescheduled anonymized : HistoryAction

pub data EstimateKind : Type 0 where
  preliminary final : EstimateKind

-- `RequestStatus.value`
unfoldable pub value : RequestStatus → String
value new = "NEW"
value classifying = "CLASSIFYING"
value RequestStatus.classified = "CLASSIFIED"
value needs_review = "NEEDS_REVIEW"
value matching = "MATCHING"
value RequestStatus.assigned = "ASSIGNED"
value dispatched = "DISPATCHED"
value failed_dispatch = "FAILED_DISPATCH"
value accepted = "ACCEPTED"
value in_progress = "IN_PROGRESS"
value done = "DONE"
value accepted_by_user = "ACCEPTED_BY_USER"
value dispute = "DISPUTE"
value paid = "PAID"
value cancelled = "CANCELLED"
value rejected = "REJECTED"

-- `Category.value`
unfoldable pub category_value : Category → String
category_value cleaning = "CLEANING"
category_value moving = "MOVING"
category_value repair = "REPAIR"
category_value key_delivery = "KEY_DELIVERY"
category_value other = "OTHER"

abbrev pub rank : RequestStatus → ℕ
rank new = 0
rank classifying = 1
rank RequestStatus.classified = 2
rank needs_review = 3
rank matching = 4
rank RequestStatus.assigned = 5
rank dispatched = 6
rank failed_dispatch = 7
rank accepted = 8
rank in_progress = 9
rank done = 10
rank accepted_by_user = 11
rank dispute = 12
rank paid = 13
rank cancelled = 14
rank rejected = 15

-- `list(RequestStatus)`
abbrev pub all_statuses : List RequestStatus
all_statuses =
    new ∷ classifying ∷ RequestStatus.classified ∷ needs_review ∷ matching ∷ RequestStatus.assigned
    ∷ dispatched ∷ failed_dispatch ∷ accepted ∷ in_progress ∷ done ∷ accepted_by_user ∷ dispute
    ∷ paid ∷ cancelled ∷ rejected ∷ []

-- `a is b`
abbrev pub is : RequestStatus → RequestStatus → Bool
is a b = eqb (rank a) (rank b)

-- `a in set`
abbrev pub is_in : RequestStatus → List RequestStatus → Bool
is_in a [] = false
is_in a (s ∷ set) = is a s || is_in a set

abbrev pub category_rank : Category → ℕ
category_rank cleaning = 0
category_rank moving = 1
category_rank repair = 2
category_rank key_delivery = 3
category_rank other = 4

abbrev pub category_is : Category → Category → Bool
category_is a b = eqb (category_rank a) (category_rank b)

-- The status with a given rank.
of_rank : ℕ → RequestStatus
of_rank n =
    if eqb n 0
    then new
    else if eqb n 1
    then classifying
    else if eqb n 2
    then RequestStatus.classified
    else if eqb n 3
    then needs_review
    else if eqb n 4
    then matching
    else if eqb n 5
    then RequestStatus.assigned
    else if eqb n 6
    then dispatched
    else if eqb n 7
    then failed_dispatch
    else if eqb n 8
    then accepted
    else if eqb n 9
    then in_progress
    else if eqb n 10
    then done
    else if eqb n 11
    then accepted_by_user
    else if eqb n 12
    then dispute
    else if eqb n 13
    then paid
    else if eqb n 14
    then cancelled
    else rejected

of_rank-rank : (s : RequestStatus) → of_rank (rank s) ≡ s
unfolding of_rank
of_rank-rank s = ground arith

-- The test `is` is equality.
pub is→eq : (a b : RequestStatus) → is a b ≡ true → a ≡ b
is→eq a b h = ground (arith, of_rank-rank a, of_rank-rank b)

pub is_refl : (a : RequestStatus) → is a a ≡ true
is_refl a = ground arith

pub RequestStatus-discrete : Discrete RequestStatus
RequestStatus-discrete = hlevel

-- `status.value.lower()`
unfoldable pub lower_value : RequestStatus → String
lower_value new = "new"
lower_value classifying = "classifying"
lower_value RequestStatus.classified = "classified"
lower_value needs_review = "needs_review"
lower_value matching = "matching"
lower_value RequestStatus.assigned = "assigned"
lower_value dispatched = "dispatched"
lower_value failed_dispatch = "failed_dispatch"
lower_value accepted = "accepted"
lower_value in_progress = "in_progress"
lower_value done = "done"
lower_value accepted_by_user = "accepted_by_user"
lower_value dispute = "dispute"
lower_value paid = "paid"
lower_value cancelled = "cancelled"
lower_value rejected = "rejected"
