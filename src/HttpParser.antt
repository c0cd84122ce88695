-- ===== src/HttpParser.antt =====
-- src/HttpParser.cpp: HTTP/1.x messages, their headers and bodies, and URL texts. A std::string_view
-- is the list of its bytes, and a std::map the list of its entries in the order of their keys.
pub mod Text
pub mod Numbers
pub mod Headers
pub mod Views
pub mod Message
pub mod Build
pub mod Chunked
pub mod Url
mod Tests
