-- ===== src/Domain/State.antt =====
-- The records of mastomini_rs/src/domain/records.rs and the state in RAM of
-- mastomini_rs/src/domain/mod.rs. Of accounts and statuses there are the fields that the
-- operations of this library read.
pub mod Relations
pub mod Visible
pub mod Access
use mastomini.Prelude.{ℕ, ◌/◌, ◌%◌, ◌^◌, Bool, Option, List, ◌==◌}
use mastomini.Prelude.Bytes.{Bytes}
use mastomini.Prelude.Map.{Map}
use mastomini.Prelude.Text.{Chars}

pub data Role : Type 0 where
  owner admin member : Role

pub record AccountRec : Type 0 where
  pub id : ℕ
  pub role : Role
  pub disabled : Bool
  pub deleted : Bool
  pub locked : Bool

pub record Account : Type 0 where
  pub slot : ℕ
  pub rec : AccountRec

pub data Visibility : Type 0 where
  everyone unlisted private direct : Visibility

-- One bit for each slot.
abbrev pub AccountMask : Type 0
AccountMask = ℕ

-- `mask & bit(slot) != 0`
abbrev pub has_bit : AccountMask → ℕ → Bool
has_bit mask slot = (mask / 2 ^ slot) % 2 == 1

pub record StatusRec : Type 0 where
  pub id : ℕ
  pub author : ℕ
  pub visibility : Visibility
  pub in_reply_to_id : Option ℕ

pub record Status : Type 0 where
  pub rec : StatusRec
  pub mentions : AccountMask
  pub muted : AccountMask

pub record FollowRec : Type 0 where
  pub id : ℕ
  pub reblogs : Bool
  pub notify : Bool

pub record BlockRec : Type 0 where
  pub id : ℕ

pub record MuteRec : Type 0 where
  pub id : ℕ
  pub notifications : Bool
  pub expires_ms : Option ℕ

pub record AccountModRec : Type 0 where
  pub account_id : ℕ
  pub silenced : Bool
  pub suspended_ms : Option ℕ
  pub sensitized : Bool

pub data CodeKind : Type 0 where
  invite : CodeKind
  reset : ℕ → ℕ → CodeKind

pub record CodeRec : Type 0 where
  pub id : ℕ
  pub hash : Bytes
  pub kind : CodeKind
  pub expires_ms : ℕ

pub data RepliesPolicy : Type 0 where
  followed members nobody : RepliesPolicy

pub record ListRec : Type 0 where
  pub id : ℕ
  pub title : Chars
  pub replies_policy : RepliesPolicy
  pub exclusive : Bool
  pub members : List ℕ

pub data NotificationKind : Type 0 where
  mention favourite reblog follow admin_report added_to_collection poll update follow_request :
      NotificationKind

pub record Notification : Type 0 where
  pub id : ℕ
  pub kind : NotificationKind
  pub to : ℕ
  pub from : ℕ
  pub status : Option ℕ
  pub object : Option ℕ

pub record NotificationRec : Type 0 where
  pub event : Notification
  pub recipient_id : ℕ
  pub sender_id : ℕ

-- What the service stores, of any kind.
pub data Rec : Type 0 where
  follow_rec : FollowRec → Rec
  block_rec : BlockRec → Rec
  mute_rec : MuteRec → Rec
  code_rec : CodeRec → Rec
  list_rec : ListRec → Rec
  notification_rec : NotificationRec → Rec

pub record State : Type 0 where
  pub accounts : List (Option Account)
  pub statuses : Map ℕ Status
  pub follows : Map (ℕ × ℕ) FollowRec
  pub blocks : Map (ℕ × ℕ) BlockRec
  pub mutes : Map (ℕ × ℕ) MuteRec
  pub moderation : List (Option AccountModRec)
  pub invites : Map ℕ CodeRec
  pub follow_requests : Map (ℕ × ℕ) FollowRec
  pub lists : Map (ℕ × ℕ) ListRec
  pub notifications : List Notification
  pub now_ms : ℕ
