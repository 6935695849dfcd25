-- ===== src/Handlers/Replies.antt =====
-- What a request has at hand, what it answers, and what it tells the caches and the hub.
-- internal/handlers/validation.go: the error replies and the guards that every handler begins with.
use Prim.Native.String.{String}
use financentury_backend.Prelude.{
  ℕ, Bool, true, false, Option, none, some, List, [], ◌∷◌, ◌&&◌, Bytes, ◌==◌, if◌then◌else◌,
}
use financentury_backend.Handlers.Amounts.{Amount, is_finite}
use financentury_backend.Handlers.Store.{Store, Budget, Category, Expense, Link}

-- `user` is 0 without a session. `now` is the time, `today` its day, `fresh` and the numbers after it
-- the next new UUIDs. Of the database, `answers n` says whether it answers the request's n-th
-- statement, `arrives n i` whether the i-th row of that answer is read without an error, `stored`
-- what a float64 reads as after it was put into a NUMERIC(18,2) column, and `sum` what SUM over
-- such columns reads as.
pub record Env : Type 0 where
  pub user : ℕ
  pub now : ℕ
  pub today : ℕ
  pub fresh : ℕ
  pub answers : ℕ → Bool
  pub arrives : ℕ → ℕ → Bool
  pub stored : Amount → Amount
  pub sum : List Amount → Amount

pub data Body : Type 0 where
  empty : Body
  the_budget : Budget → Body
  the_category : Category → Body
  the_categories : List Category → Body
  the_expense : Expense → Body
  the_expenses : List Expense → Body
  the_link : Link → Body
  the_links : List Link → Body
  the_token : Bytes → Body

-- `failure` is an error reply of validation.go, `json` the call `c.Status(n).JSON(body)`.
pub data Reply : Type 0 where
  failure : ℕ → String → Reply
  json : ℕ → Body → Reply

abbrev all : {A : Type 0} → (A → Bool) → List A → Bool
all p [] = true
all p (x ∷ xs) = p x && all p xs

-- encoding/json has an error for a float64 that is NaN or infinite.
unfoldable pub encodes : Body → Bool
encodes (the_budget row) = is_finite row.monthly_income
encodes (the_category row) = is_finite row.allocation_value
encodes (the_categories rows) = all (λ c. is_finite c.allocation_value) rows
encodes (the_expense row) = is_finite row.amount
encodes (the_expenses rows) = all (λ x. is_finite x.amount) rows
encodes _ = true

-- The status that the client gets: an error of `c.JSON` becomes 500.
unfoldable pub http_status : Reply → ℕ
unfolding encodes
http_status (failure status message) = status
http_status (json status body) = if encodes body then status else 500

pub data Event : Type 0 where
  budget_created : Event
  budget_updated : Event
  budget_deleted : Event
  category_created : Event
  category_updated : Event
  category_deleted : Event
  expense_created : Event
  expense_updated : Event
  expense_deleted : Event
  link_created : Event
  link_updated : Event
  link_deleted : Event
  collab_added : Event
  collab_removed : Event

-- Calls on the response cache, the hub and the shared cache, in order.
pub data Effect : Type 0 where
  invalidate : ℕ → Effect
  send : ℕ → Event → Effect
  drop_list : ℕ → Effect
  drop_linkable_of_user : ℕ → Effect
  drop_linkable_of_budget : ℕ → Effect
  drop_invite_info : Bytes → Effect

pub record Answer : Type 0 where
  pub store : Store
  pub effects : List Effect
  pub reply : Reply

-- A guard's outcome: an early return, or the value that the code goes on with.
pub data Checked (A : Type 0) : Type 0 where
  pass : A → Checked A
  refuse : Reply → Checked A

infixl 5 ◌>>=◌ ◌>>◌
abbrev pub ◌>>=◌ : {A B : Type 0} → Checked A → (A → Checked B) → Checked B
pass a >>= f = f a
refuse r >>= f = refuse r

abbrev pub ◌>>◌ : {B : Type 0} → Checked (Unit {0}) → Checked B → Checked B
m >> k = m >>= λ _. k

-- `if !(b) { return reply }`
unfoldable pub ensure : Bool → Reply → Checked (Unit {0})
ensure true r = pass tt
ensure false r = refuse r

unfoldable pub given : {A : Type 0} → Option A → Reply → Checked A
given none r = refuse r
given (some a) r = pass a

abbrev pub unauthorized : Reply
unauthorized = failure 401 "unauthorized"

abbrev pub bad_request : String → Reply
bad_request message = failure 400 message

abbrev pub forbidden : String → Reply
forbidden message = failure 403 message

abbrev pub not_found : String → Reply
not_found message = failure 404 message

abbrev pub internal : String → Reply
internal message = failure 500 message

-- `requireUserID`
unfoldable pub require_user : Env → Checked ℕ
require_user e = if e.user == 0 then refuse unauthorized else pass e.user

-- An early return leaves the store and tells nobody.
unfoldable pub finish : Store → Checked Answer → Answer
finish s (pass a) = a
finish s (refuse r) = record { store = s; effects = []; reply = r }
