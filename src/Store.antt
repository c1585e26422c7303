-- ===== src/Store.antt =====
-- prisma/schema.prisma and src/domain.ts: the rows of each table, and the two job queues. Ids and
-- the sha256 hashes of tokens are only ever compared, so they are numbers; times are milliseconds.
use eventify_backend_course.Common.{ℕ, String, Bool, true, false, Option, List, ◌==◌, ◌&&◌}

pub data Role : Type 0 where
  attendee organizer admin : Role

pub data BookingStatus : Type 0 where
  confirmed cancelled waitlisted : BookingStatus

-- `===` on roles and on statuses
abbrev pub role_eq : Role → Role → Bool
role_eq attendee attendee = true
role_eq organizer organizer = true
role_eq admin admin = true
role_eq _ _ = false

abbrev pub status_eq : BookingStatus → BookingStatus → Bool
status_eq confirmed confirmed = true
status_eq cancelled cancelled = true
status_eq waitlisted waitlisted = true
status_eq _ _ = false

pub record User : Type 0 where
  pub id : ℕ
  pub name : String
  pub email : String
  pub role : Role

-- Its createdAt, which no code reads, is left out.
pub record Event : Type 0 where
  pub id : ℕ
  pub title : String
  pub description : String
  pub venue : Option String
  pub starts_at : ℕ
  pub capacity : ℕ
  pub price_cents : ℕ
  pub organizer_id : ℕ

pub record Venue : Type 0 where
  pub id : ℕ
  pub name : String
  pub address : String
  pub capacity : ℕ
  pub contact_email : String
  pub created_at : ℕ

pub record Booking : Type 0 where
  pub id : ℕ
  pub user_id : ℕ
  pub event_id : ℕ
  pub status : BookingStatus
  pub created_at : ℕ

pub record RefreshToken : Type 0 where
  pub id : ℕ
  pub token_hash : ℕ
  pub user_id : ℕ
  pub expires_at : ℕ
  pub revoked_at : Option ℕ
  pub replaced_by_id : Option ℕ

pub record Store : Type 0 where
  pub users : List User
  pub events : List Event
  pub bookings : List Booking
  pub refresh_tokens : List RefreshToken
  pub waitlist_queue : List ℕ
  pub email_queue : List ℕ

-- The authenticated principal (`Actor` of src/bookings/service.ts).
pub record Actor : Type 0 where
  pub sub : ℕ
  pub role : Role

-- The conditions of the program's queries on bookings.
abbrev pub has_id : ℕ → Booking → Bool
has_id id b = b.id == id

abbrev pub is_of : ℕ → ℕ → Booking → Bool
is_of user_id event_id b = (b.user_id == user_id) && (b.event_id == event_id)

abbrev pub is_for : ℕ → BookingStatus → Booking → Bool
is_for event_id status b = (b.event_id == event_id) && status_eq b.status status

abbrev pub with_status : BookingStatus → Booking → Booking
with_status status b = record b { status = status }
