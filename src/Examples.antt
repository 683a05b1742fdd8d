-- ===== src/Examples.antt =====
-- A small office, and the theorems at calls that run on it.
mod Office
mod TaskCalls
mod HierarchyCalls
mod WorkspaceCalls
mod MemberCalls
mod NotifyCalls
mod Inbox
mod CommentCalls
mod InvitationCalls
mod AccountCalls
