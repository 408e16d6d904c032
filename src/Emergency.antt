-- ===== src/Emergency.antt =====
-- hw13: workers borrow trucks, people and insurance from a broker (hw13/broker.c) for the tasks that a
-- dispatcher (hw13/dispatcher.c) gives them.
pub mod Lending
pub mod Dispatcher
pub mod Worker
pub mod Tests
