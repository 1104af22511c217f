-- ===== src/Models.antt =====
-- The models of the user interface: src/models/headers_model.cpp, query_model.cpp, body_model.cpp
-- and response_model.cpp.
pub mod View
pub mod Headers
pub mod Query
pub mod Shown
pub mod ShownQuery
pub mod Body
pub mod Response
