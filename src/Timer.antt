-- ===== src/Timer.antt =====
-- src/Timer.cpp and include/FastNet/Timer.h: the class TimerManager, its worker and its clients, as
-- actions in the order in which they take the mutex. A time is a number of ticks of the clock.
pub mod Manager
pub mod Clients
pub mod Loop
pub mod Actions
pub mod Inv
pub mod Runs
pub mod Silence
pub mod Cancel
pub mod Progress
pub mod Timeouts
mod Tests
