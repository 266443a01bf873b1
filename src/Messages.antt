-- ===== src/Messages.antt =====
-- module/chat/service/message.go and module/chat/model/msg.go: the conversion of a message of the wire
-- into the document that is stored, and the collection of these documents.
pub mod Wire
pub mod Model
pub mod Copy
pub mod Preview
pub mod Cases
pub mod Build
pub mod Elements
pub mod Shape
pub mod Stored
mod Tests
